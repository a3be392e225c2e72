-- ===== src/Fixture.antt =====
-- internal/fixture/fixture.go: the sample jobs.
--
-- The payload is what encoding/json makes of the kind, the number and the time: a parameter.
pub mod Again
use local_first_job_queue.Prelude.{ℕ, ◌+◌, List, [], ◌∷◌, ◌++◌, map, Text, bytes}
use local_first_job_queue.Clock.{Time}
use local_first_job_queue.Models.{Job}
use local_first_job_queue.Store.{Env, Exec, time_now, pure, ◌>>=◌}
use local_first_job_queue.Queue.{enqueue_defaults, enqueue}
use local_first_job_queue.Queue.Options.{with_idempotency_key}

-- `Workloads`
abbrev pub workloads : List Text
workloads = bytes "email" ∷ bytes "report" ∷ bytes "cleanup" ∷ bytes "backup" ∷ bytes "notify" ∷ []

-- What one round of the loop enqueues.
pub record Sample : Type 0 where
  pub kind : Text
  pub payload : Text
  pub key : Text

-- `sample:%s:%d`, for a number of one digit.
abbrev pub sample_key : Text → ℕ → Text
sample_key kind i = bytes "sample:" ++ (kind ++ b':' ∷ (b'0' + i) ∷ [])

unfoldable pub samples_of : (Text → ℕ → Time → Text) → Time → Text → List Sample
samples_of encode now kind =
    map (λ i. record { kind = kind; payload = encode kind i now; key = sample_key kind i })
      (0 ∷ 1 ∷ 2 ∷ [])

unfoldable pub samples_for : (Text → ℕ → Time → Text) → Time → List Text → List Sample
unfolding samples_of
samples_for encode now [] = []
samples_for encode now (kind ∷ kinds) = samples_of encode now kind ++ samples_for encode now kinds

unfoldable pub samples : (Text → ℕ → Time → Text) → Time → List Sample
unfolding samples_for
samples encode now = samples_for encode now workloads

-- The loop, which stops at the first job that cannot be enqueued.
unfoldable pub load_each : Env → List Sample → Exec (List Job)
unfolding enqueue with_idempotency_key
load_each e [] = pure []
load_each e (x ∷ xs) = do
  j ← enqueue e x.kind x.payload (with_idempotency_key x.key enqueue_defaults)
  js ← load_each e xs
  pure (j ∷ js)

-- `LoadSampleData`
unfoldable pub load_sample_data : Env → (Text → ℕ → Time → Text) → Exec (List Job)
unfolding load_each samples
load_sample_data e encode = do now ← time_now e; load_each e (samples encode now)
