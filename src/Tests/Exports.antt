-- ===== src/Tests/Exports.antt =====
-- Histories whose exports verify: calls on a quiet driver.
use local_first_job_queue.Prelude.{
  some, ◌≢◌, find?, eq_text, keep, ◌≡◌, ◌↔◌, refl, true, none, List, [], ◌∷◌, ◌++◌, length, count,
  map, bytes, pos, arith,
}
use local_first_job_queue.Prelude.Predicates.{All}
use local_first_job_queue.Archive.{validate_record, Record, decoded, blank, verify, valid}
use local_first_job_queue.Archive.Exact.{AreAccepted, verify_exact}
use local_first_job_queue.Store.Listings.{HistoryFilter, history_matches}
use local_first_job_queue.Models.{manual}
use local_first_job_queue.Calls.{Call, leases, fails, recovers, prunes, acknowledges, perform_all}
use local_first_job_queue.Calls.Replay.{
  perform_all-IsKept, new_world-IsKept, IsLogged, new_world, perform_all-Journal,
}
use local_first_job_queue.Journal.Outcomes.{IsRegular, IsJournal}
use local_first_job_queue.Journal.{log_of}
use local_first_job_queue.Journal.Records.{record_of}
use local_first_job_queue.Journal.Broken.{fail_unleased-unverified}
use local_first_job_queue.Queue.{fail}
use local_first_job_queue.Store.{Row, time_now, statement, ◌>>=◌, new_text}
use local_first_job_queue.Store.Lookup.{find_id}
use local_first_job_queue.Store.Insert.{row_of}
use local_first_job_queue.Store.Rows.{scan_optional, scan_job, update_where}
use local_first_job_queue.Clock.{parse, format}
use local_first_job_queue.Tests.Histories.{first_job}
use local_first_job_queue.Cli.{export_command, verify_command, printed}
use local_first_job_queue.Cli.Exporting.{export_command-verifies}
use local_first_job_queue.Tests.Archives.{done_record}
use local_first_job_queue.Tests.Samples.{quiet_env, email, minute, two_jobs, first_id, second_id}

pub quiet_env-IsRegular : IsRegular quiet_env
quiet_env-IsRegular = record {
  quiet = λ n. refl;
  forward = λ m n h. omega arith;
  running = λ n. omega arith;
  draws = λ n h. cc;
}

-- Two jobs, a lease that runs out and is recovered, and a lease that is given back.
abbrev pub calls : List Call
calls =
    two_jobs
    ++ (leases email (pos 0)
        ∷ recovers
        ∷ leases email minute
        ∷ fails second_id (bytes "other") (bytes "no")
        ∷ acknowledges second_id []
        ∷ prunes (record { max_job_age = pos 0; max_events_per_job = pos 2 }) manual
        ∷ [])

pub calls-IsLogged : All IsLogged calls
calls-IsLogged = omega arith

perform_all-Journal_example : IsJournal quiet_env (perform_all quiet_env calls (new_world 0))
perform_all-Journal_example =
    perform_all-Journal quiet_env quiet_env-IsRegular calls 0 calls-IsLogged

abbrev everything : HistoryFilter
everything = record { state = none; kind = [] }

export_command-verifies_example :
    let v = perform_all quiet_env calls (new_world 0) in
    (rs : List Record) × ((export_command quiet_env everything [] v).0 ≡ printed rs)
    × ((export_command quiet_env everything [] v).1.db ≡ v.db)
    × (length rs ≡ count (history_matches everything) v.db.jobs)
    × (verify_command (map decoded rs) [] ≡ printed (verify (map decoded rs)))
export_command-verifies_example =
    export_command-verifies quiet_env quiet_env-IsRegular everything calls 0 calls-IsLogged

verify_exact_example :
    (valid (verify (decoded done_record ∷ blank ∷ [])) ≡ true)
    ↔ AreAccepted (decoded done_record ∷ blank ∷ []) [] []
verify_exact_example = verify_exact (decoded done_record ∷ blank ∷ [])

-- The first of two pending jobs.
abbrev pending_row : Row
pending_row = row_of first_job

fail_unleased-unverified_example :
    let w = perform_all quiet_env two_jobs (new_world 0) in
    let v = (fail quiet_env first_id [] (bytes "late") w).1 in
    (find_id first_id v.db.jobs ≡ some pending_row)
    × ((validate_record
          (record_of pending_row (log_of first_id v.db.events))
          (record { jobs = []; events = [] })).errors
        ≢ [])
unfolding perform_all ◌>>=◌ time_now statement new_text count scan_optional find? eq_text keep
    scan_job parse format update_where row_of
fail_unleased-unverified_example =
    fail_unleased-unverified quiet_env (λ n. refl) (perform_all quiet_env two_jobs (new_world 0))
      (perform_all-IsKept quiet_env quiet_env-IsRegular two_jobs (new_world 0) (omega arith)
        (new_world-IsKept quiet_env 0))
      first_id (bytes "late") pending_row (record { jobs = []; events = [] }) refl refl
