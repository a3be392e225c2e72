-- ===== src/Tests/Faults.antt =====
-- An injected fault on a job's second run.
use local_first_job_queue.Prelude.{◌≡◌, ◌↔◌, ◌<ℤ◌, ◌+ℤ◌, refl, inl, none, [], bytes, pos, false}
use local_first_job_queue.Models.{Job, leased}
use local_first_job_queue.Fault.{
  Policy, mode_error, Outcome, returns_nil, returns_error, injected_error, handle,
}
use local_first_job_queue.Fault.Attempts.{handle-attempts}
use local_first_job_queue.Tests.Samples.{first_id, email, start_second}

abbrev second_run : Job
second_run = record {
  id = first_id;
  kind = email;
  payload = [];
  state = leased;
  retry_count = pos 1;
  max_attempts = pos 3;
  priority = pos 0;
  idempotency_key = none;
  created_at = start_second;
  updated_at = start_second;
  leased_until = none;
  lease_token = [];
  run_at = none;
}

abbrev twice : Job → Policy
twice j = record {
  mode = mode_error;
  fail_until_attempt = pos 2;
  delay = pos 0;
  message = bytes "disk full";
}

abbrev succeeding : Job → Outcome
succeeding j = returns_nil

second_fails :
    handle twice false succeeding second_run
    ≡ returns_error (injected_error (pos 2) (bytes "disk full"))
unfolding handle ◌+ℤ◌
second_fails = refl

handle-attempts_example :
    (handle twice false succeeding second_run ≡ returns_nil) ↔ (pos 2 <ℤ pos 2)
unfolding ◌+ℤ◌
handle-attempts_example = handle-attempts twice succeeding second_run (inl refl) refl
