-- ===== src/Tests/Leases.antt =====
-- Schedules of statements from several processes.
use local_first_job_queue.Prelude.{
  ◌≡◌, ◌≢◌, refl, List, [], ◌∷◌, bytes, find?, eq_text, keep, count, some, none, pos, true, arith,
  ℕ, ◌*◌, ◌+◌, ◌<◌, compare_text,
}
use local_first_job_queue.Prelude.Predicates.{All}
use local_first_job_queue.Clock.{Time, nanos, format, parse, stamp_lt, compare_stamp}
use local_first_job_queue.Clock.RoundTrip.{parse-format}
use local_first_job_queue.Clock.TextOrder.{stamp_lt_sound, stamp_lt-whole_second}
use local_first_job_queue.Models.{pending}
use local_first_job_queue.Store.{Row, Db, World, empty}
use local_first_job_queue.Store.Rows.{update_where}
use local_first_job_queue.Queue.{enqueue_defaults, new_job, acknowledge, fail, renew}
use local_first_job_queue.Queue.Failures.{IsRefused, stale_worker}
use local_first_job_queue.Statements.{Statement, inserts, claims, renews, completes, run, run_all}
use local_first_job_queue.Statements.Shape.{WellFormed, empty-WellFormed, run_all-WellFormed}
use local_first_job_queue.Statements.Exclusive.{IsHeld}
use local_first_job_queue.Statements.Grants.{granted, all_granted, exclusive_lease}
use local_first_job_queue.Tests.Samples.{
  quiet_env, email, minute, first_id, second_id, start_second,
}

abbrev noon : ℕ
noon = start_second * nanos

abbrev at : ℕ → Time
at n = (start_second + n) * nanos

abbrev inserted : List Statement
inserted = inserts first_id email (bytes "a") enqueue_defaults noon ∷ []

-- One pending job.
one_job : Db
unfolding run_all run find? update_where count keep eq_text new_job
one_job = run_all inserted empty

one_job-WellFormed : WellFormed one_job
unfolding one_job
one_job-WellFormed = run_all-WellFormed inserted empty empty-WellFormed

abbrev first_claim : Statement
first_claim = claims quiet_env email (at 1) (at 61) (bytes "T1")

abbrev busy : List Statement
busy =
    claims quiet_env email (at 2) (at 62) (bytes "T2")
    ∷ renews first_id (bytes "T1") (at 30) (at 90)
    ∷ completes first_id (bytes "T2") (at 40)
    ∷ []

exclusive_lease_example :
    IsHeld first_id (bytes "T1") (run_all busy (run first_claim one_job))
    × All (λ g. g ≢ some first_id) (all_granted busy (run first_claim one_job))
unfolding one_job granted format compare_stamp compare_text
exclusive_lease_example =
    exclusive_lease first_claim busy one_job first_id one_job-WellFormed refl
      (refl, (refl, (refl, tt)))

run_all-WellFormed_example : WellFormed (run_all (first_claim ∷ busy) one_job)
run_all-WellFormed_example = run_all-WellFormed (first_claim ∷ busy) one_job one_job-WellFormed

abbrev first_waiting : Row
first_waiting = record {
  id = first_id;
  kind = email;
  payload = bytes "a";
  state = pending;
  retry_count = pos 0;
  max_attempts = pos 3;
  priority = pos 0;
  idempotency_key = none;
  created_at = format noon;
  updated_at = format noon;
  leased_until = none;
  run_at = none;
  lease_token = none;
}

-- A job of the same age and a higher priority beside it.
abbrev both_inserted : List Statement
both_inserted =
    inserts first_id email (bytes "a") enqueue_defaults noon
    ∷ inserts second_id email (bytes "b") (record enqueue_defaults { priority = pos 5 }) noon
    ∷ []

two_waiting : Db
unfolding run_all run find? update_where count keep eq_text new_job
two_waiting = run_all both_inserted empty

not-IsHeld : ¬ IsHeld first_id (bytes "T1") one_job
unfolding one_job
not-IsHeld h = ground (arith, h.found, h.is_lease)

abbrev late : World
late = record { db = one_job; ticks = 9 }

stale_worker_example :
    IsRefused (acknowledge quiet_env first_id (bytes "T1") late) one_job
    × IsRefused (fail quiet_env first_id (bytes "T1") (bytes "slow") late) one_job
    × IsRefused (renew quiet_env first_id (bytes "T1") minute late) one_job
stale_worker_example =
    stale_worker quiet_env late b'T' (b'1' ∷ []) first_id one_job-WellFormed not-IsHeld
      (bytes "slow") minute

parse-format_example : parse (format noon) ≡ some noon
parse-format_example = parse-format noon

stamp_lt_sound_example : noon < (start_second + 2) * nanos + nanos
unfolding stamp_lt format compare_text
stamp_lt_sound_example = stamp_lt_sound noon ((start_second + 2) * nanos) refl

stamp_lt-whole_second_example :
    stamp_lt (format (start_second * nanos + 500000000)) (format (start_second * nanos)) ≡ true
stamp_lt-whole_second_example =
    stamp_lt-whole_second start_second 500000000 (omega arith) (omega arith)
