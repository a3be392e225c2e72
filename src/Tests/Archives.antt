-- ===== src/Tests/Archives.antt =====
-- A record for the tests of archives.
use local_first_job_queue.Prelude.{[], ◌∷◌, bytes, none, pos, ℕ, ◌*◌, ◌+◌}
use local_first_job_queue.Clock.{nanos}
use local_first_job_queue.Models.{
  Job, Event, EventType, completed, enqueued, leased_event, acknowledged,
}
use local_first_job_queue.Archive.{Record}

abbrev pub done_job : Job
done_job = record {
  id = bytes "j1";
  kind = bytes "email";
  payload = [];
  state = completed;
  retry_count = pos 0;
  max_attempts = pos 3;
  priority = pos 0;
  idempotency_key = none;
  created_at = 5 * nanos;
  updated_at = 7 * nanos;
  leased_until = none;
  lease_token = [];
  run_at = none;
}

abbrev pub event : ℕ → EventType → Event
event n t = record {
  id = pos n;
  job_id = bytes "j1";
  event_type = t;
  metadata = none;
  timestamp = (4 + n) * nanos;
}

abbrev pub done_record : Record
done_record = record {
  schema_version = pos 1;
  job = done_job;
  events = event 1 enqueued ∷ event 2 leased_event ∷ event 3 acknowledged ∷ [];
}
