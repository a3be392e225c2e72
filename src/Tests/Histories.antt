-- ===== src/Tests/Histories.antt =====
-- Whole histories of calls.
use local_first_job_queue.Prelude.{
  ◌≡◌, refl, ap, List, [], ◌∷◌, ◌++◌, map, bytes, find?, eq_text, keep, count, some, none, pos,
}
use local_first_job_queue.Clock.{parse, format}
use local_first_job_queue.Store.{
  World, Row, EventRow, time_now, statement, ◌>>=◌, new_text, Result, ok,
}
use local_first_job_queue.Store.Rows.{scan_optional, scan_job, update_where}
use local_first_job_queue.Store.Insert.{row_of}
use local_first_job_queue.Models.{Job, pending, completed, enqueued, leased_event, acknowledged}
use local_first_job_queue.Statements.Shape.{WellFormed, empty-WellFormed}
use local_first_job_queue.Calls.{Call, leases, acknowledges, perform_all, perform_all-WellFormed}
use local_first_job_queue.Queue.{enqueue, fail}
use local_first_job_queue.Queue.Idempotency.{enqueue_again}
use local_first_job_queue.Queue.Failures.{fail_unleased}
use local_first_job_queue.Tests.Samples.{
  quiet_env, start, email, minute, two_jobs, first_id, second_id, keyed,
}

run_of : List Call → World
unfolding perform_all ◌>>=◌ time_now statement new_text count scan_optional find? eq_text keep
    scan_job parse format update_where
run_of cs = perform_all quiet_env cs start

ids_given : map (λ (r : Row). r.id) (run_of two_jobs).db.jobs ≡ first_id ∷ second_id ∷ []
unfolding run_of
ids_given = refl

-- The job of the higher priority is leased first, and finished.
urgent_first :
    let v = run_of (two_jobs ++ leases email minute ∷ acknowledges second_id [] ∷ []) in
    (map (λ (r : Row). r.state) v.db.jobs ≡ pending ∷ completed ∷ [])
    × (map (λ (x : EventRow). x.event_type) v.db.events
        ≡ enqueued ∷ enqueued ∷ leased_event ∷ acknowledged ∷ [])
unfolding run_of
urgent_first = (refl, refl)

perform_all-WellFormed_example : WellFormed (perform_all quiet_env two_jobs start).db
perform_all-WellFormed_example = perform_all-WellFormed quiet_env two_jobs start empty-WellFormed

abbrev pub first_job : Job
first_job = record {
  id = first_id;
  kind = email;
  payload = bytes "a";
  state = pending;
  retry_count = pos 0;
  max_attempts = pos 3;
  priority = pos 0;
  idempotency_key = some (bytes "once");
  created_at = quiet_env.now 1;
  updated_at = quiet_env.now 1;
  leased_until = none;
  lease_token = [];
  run_at = none;
}

enqueue_again_example :
    (enqueue quiet_env email (bytes "other") keyed (run_of two_jobs)).0 ≡ ok first_job
unfolding run_of
enqueue_again_example =
    ap (λ (p : Result Job × World). p.0)
      (enqueue_again quiet_env (run_of two_jobs) email (bytes "other") keyed b'o' (bytes "nce")
        (b'r' ∷ 8 ∷ []) (row_of first_job) first_job (λ n. refl) refl refl refl refl)

fail_unleased_example : (fail quiet_env first_id [] (bytes "late") (run_of two_jobs)).0 ≡ ok tt
unfolding run_of
fail_unleased_example =
    ap (λ (p : Result (Unit {0}) × World). p.0)
      (fail_unleased quiet_env (run_of two_jobs) first_id (bytes "late") (row_of first_job)
        first_job (λ n. refl) (perform_all-WellFormed quiet_env two_jobs start empty-WellFormed)
        refl refl refl)
