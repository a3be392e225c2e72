-- ===== src/Tests/Workers.antt =====
-- A worker at one job, undisturbed and robbed of its lease.
use local_first_job_queue.Prelude.{
  ◌≡◌, ◌⊎◌, ◌+ℤ◌, ◌≤ℤ◌, ◌<ℤ◌, refl, ap, arith, ℕ, ◌+◌, ◌*◌, List, [], ◌∷◌, ◌++◌, Text, bytes, map,
  find?, eq_text, keep, count, compare_text, some, none, pos,
}
use local_first_job_queue.Clock.{Time, nanos, format, parse, compare_stamp}
use local_first_job_queue.Models.{
  Job, completed, leased, pending, dead_letter, retried, dead_lettered, attempt_failed,
  exhausted_by,
}
use local_first_job_queue.Store.{
  ok, Row, Db, World, Error, err, empty, time_now, statement, new_text, ◌>>=◌,
}
use local_first_job_queue.Store.Rows.{update_where, map_option, scan_optional, scan_job, scan_row}
use local_first_job_queue.Queue.{enqueue_defaults, new_job, fail}
use local_first_job_queue.Statements.{Statement, inserts, claims, renews, recovers, run, run_all}
use local_first_job_queue.Statements.Exclusive.{IsHeld}
use local_first_job_queue.Statements.Shape.{WellFormed, empty-WellFormed, run_all-WellFormed}
use local_first_job_queue.Fault.{Outcome, Failure, returns_nil}
use local_first_job_queue.Store.Lookup.{find_id}
use local_first_job_queue.Queue.Failing.{Failed, fail_lem}
use local_first_job_queue.Store.Claim.{lease_row}
use local_first_job_queue.Store.Insert.{row_of}
use local_first_job_queue.Statements.Races.{stale_recovery}
use local_first_job_queue.Worker.{
  Settings, renews_lease, finished, renewal_stopped, work_on, process_one,
}
use local_first_job_queue.Worker.Fencing.{heartbeat_stops, finish_stops}
use local_first_job_queue.Tests.Samples.{
  quiet_env, email, minute, first_id, second_id, start_second,
}

abbrev settings : Settings
settings = record { kind = email; lease_duration = minute; lease_renewal_interval = pos 0 }

abbrev works : Job → Outcome
works j = returns_nil

abbrev no_text : Failure → Text
no_text x = []

abbrev queued : List Statement
queued = inserts first_id email (bytes "a") enqueue_defaults (start_second * nanos) ∷ []

abbrev queued_world : World
queued_world = record { db = run_all queued empty; ticks = 0 }

queued-WellFormed : WellFormed queued_world.db
queued-WellFormed = run_all-WellFormed queued empty empty-WellFormed

-- Undisturbed, with one heartbeat, the job ends completed.
one_job_done :
    map
      (λ (r : Row). r.state)
      (process_one quiet_env settings works no_text ([] ∷ []) [] queued_world).1.db.jobs
    ≡ completed ∷ []
unfolding process_one run_all run ◌>>=◌ time_now statement new_text count scan_optional find?
    eq_text keep scan_job parse format update_where new_job scan_row
one_job_done = refl

-- The job as the worker leased it.
abbrev leased_job : Job
leased_job = record {
  id = first_id;
  kind = email;
  payload = bytes "a";
  state = leased;
  retry_count = pos 0;
  max_attempts = pos 3;
  priority = pos 0;
  idempotency_key = none;
  created_at = start_second * nanos;
  updated_at = (start_second + 1) * nanos;
  leased_until = some ((start_second + 2) * nanos);
  lease_token = bytes "T1";
  run_at = none;
}

abbrev second_of : ℕ → Time
second_of n = (start_second + n) * nanos

-- Another process recovers the lease and claims the job.
abbrev robbery : List Statement
robbery =
    recovers (second_of 5) leased_job
    ∷ claims quiet_env email (second_of 6) (second_of 66) (bytes "T2")
    ∷ []

abbrev leased_by : List Statement
leased_by = queued ++ claims quiet_env email (second_of 1) (second_of 2) (bytes "T1") ∷ []

leased_once : Db
unfolding run_all run find? update_where count keep eq_text new_job compare_text format
    compare_stamp
leased_once = run_all leased_by empty

leased_once-WellFormed : WellFormed leased_once
unfolding leased_once
leased_once-WellFormed = run_all-WellFormed leased_by empty empty-WellFormed

abbrev robbed : World
robbed = record { db = leased_once; ticks = 10 }

lost : ¬ IsHeld first_id (bytes "T1") (run_all robbery leased_once)
unfolding leased_once run_all run find? update_where count keep eq_text compare_text format
    compare_stamp
lost h = ground (arith, ap (map_option (λ (r : Row). r.lease_token)) h.found, h.owner)

heartbeat_stops_example :
    ((x : Error) × ((work_on quiet_env settings works no_text (robbery ∷ []) [] leased_job robbed).0
        ≡ renewal_stopped x))
    × ((work_on quiet_env settings works no_text (robbery ∷ []) [] leased_job robbed).1.db
        ≡ run_all robbery leased_once)
unfolding renews_lease
heartbeat_stops_example =
    heartbeat_stops quiet_env no_text leased_job robbed robbery leased_once-WellFormed _ _ refl lost
      settings works [] [] refl

finish_stops_example :
    ((x : Error) × ((work_on quiet_env settings works no_text [] robbery leased_job robbed).0
        ≡ finished (err x)))
    × ((work_on quiet_env settings works no_text [] robbery leased_job robbed).1.db
        ≡ run_all robbery leased_once)
finish_stops_example =
    finish_stops quiet_env no_text leased_job robbed robbery leased_once-WellFormed _ _ refl lost
      settings works

first_row : Row
unfolding row_of new_job
first_row =
    lease_row (format (second_of 1)) (format (second_of 2)) (bytes "T1")
      (row_of (new_job first_id email (bytes "a") enqueue_defaults (start_second * nanos)))

found_once : find_id first_id leased_once.jobs ≡ some first_row
unfolding leased_once first_row run_all run find? update_where count keep eq_text compare_text
    format compare_stamp
found_once = refl

leased_first : first_row.state ≡ leased
unfolding first_row
leased_first = refl

owned_first : first_row.lease_token ≡ some (bytes "T1")
unfolding first_row
owned_first = refl

abbrev first_lease : IsHeld first_id (bytes "T1") leased_once
first_lease = record {
  row = first_row;
  found = found_once;
  is_lease = leased_first;
  owner = owned_first;
}

scans_first : scan_job first_row ≡ ok leased_job
unfolding first_row scan_job parse format
scans_first = refl

fail_lem_example :
    let (r, v) = fail quiet_env first_id (bytes "T1") (bytes "slow") robbed in
    let attempts = first_row.retry_count +ℤ pos 1 in
    let max_attempts = first_row.max_attempts in
    let message = bytes "slow" in
    (r ≡ ok tt)
    × (find_id second_id v.db.jobs ≡ find_id second_id leased_once.jobs)
    × (((attempts <ℤ max_attempts)
          × Failed quiet_env robbed first_id first_row pending retried
              (attempt_failed attempts max_attempts message)
              v.db)
        ⊎ ((max_attempts ≤ℤ attempts)
            × Failed quiet_env robbed first_id first_row dead_letter dead_lettered
                (exhausted_by attempts max_attempts message)
                v.db))
unfolding eq_text
fail_lem_example =
    fail_lem quiet_env robbed first_id b'T' (b'1' ∷ []) (bytes "slow") leased_job (λ n. refl)
      first_lease scans_first second_id refl

abbrev renewal : Statement
renewal = renews first_id (bytes "T1") (second_of 3) (second_of 63)

stale_recovery_example :
    IsHeld first_id (bytes "T1") (run renewal leased_once)
    × (¬ IsHeld first_id
        (bytes "T1")
        (run (recovers (second_of 5) leased_job) (run renewal leased_once)))
stale_recovery_example =
    stale_recovery first_id (bytes "T1") leased_once (second_of 3) (second_of 63) (second_of 5)
      leased_job leased_once-WellFormed first_lease refl
