-- ===== src/Tests/Samples.antt =====
-- A clock, a random source and a few calls for the tests.
use local_first_job_queue.Prelude.{ℕ, ◌+◌, ◌*◌, false, some, List, [], ◌∷◌, Text, bytes, ℤ, pos}
use local_first_job_queue.Clock.{nanos}
use local_first_job_queue.Store.{World, Env, empty}
use local_first_job_queue.Queue.{EnqueueConfig, enqueue_defaults}
use local_first_job_queue.Calls.{Call, enqueues}

-- Some second of the year 2026.
abbrev pub start_second : ℕ
start_second = 63900000000

-- A clock that moves a second with each action, a random source that numbers its texts, a driver
-- that never fails, and no aging.
abbrev pub quiet_env : Env
quiet_env = record {
  now = λ n. (start_second + n) * nanos;
  random = λ n. some (b'r' ∷ n ∷ []);
  fails = λ n. false;
  age_points = λ a b d. pos 0;
  aging_interval = pos 0;
}

abbrev pub start : World
start = record { db = empty; ticks = 0 }

abbrev pub email : Text
email = bytes "email"

abbrev pub keyed : EnqueueConfig
keyed = record enqueue_defaults { idempotency_key = bytes "once" }

abbrev pub urgent : EnqueueConfig
urgent = record enqueue_defaults { priority = pos 9 }

abbrev pub minute : ℤ
minute = pos (60 * nanos)

-- The ids that the random source gives the first two jobs, and the token of the first lease.
abbrev pub first_id : Text
first_id = b'r' ∷ 0 ∷ []

abbrev pub second_id : Text
second_id = b'r' ∷ 4 ∷ []

abbrev pub two_jobs : List Call
two_jobs = enqueues email (bytes "a") keyed ∷ enqueues email (bytes "b") urgent ∷ []
