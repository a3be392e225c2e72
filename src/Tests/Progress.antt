-- ===== src/Tests/Progress.antt =====
-- A worker that comes to rest, a lease and a snapshot, at concrete histories.
use local_first_job_queue.Prelude.{
  ℕ, List, map, take, ◌≤◌, ◌≡◌, refl, arith, suc, eq_text, find?, [], ◌∷◌, Text, bytes,
}
use local_first_job_queue.Models.{Job, JobState}
use local_first_job_queue.Store.{World, ok, ◌>>=◌, time_now, statement, new_text}
use local_first_job_queue.Store.Listings.{QueueSnapshot, inspect}
use local_first_job_queue.Store.Attempts.{all_left}
use local_first_job_queue.Statements.Shape.{WellFormed, empty-WellFormed}
use local_first_job_queue.Statements.Reading.{Reads, empty-Reads}
use local_first_job_queue.Store.{Row}
use local_first_job_queue.Calls.{perform_all, perform_all-WellFormed}
use local_first_job_queue.Calls.Inspection.{perform_all-Reads}
use local_first_job_queue.Calls.Snapshot.{inspect-perform_all}
use local_first_job_queue.Journal.Records.{read_job, read_event}
use local_first_job_queue.Store.Queries.Tally.{Tally}
use mathlib.Core.List.{reverse, Perm}
use local_first_job_queue.Fault.{Outcome, Failure, returns_error, handler_error}
use local_first_job_queue.Worker.{Settings}
use local_first_job_queue.Worker.Progress.{IsIdle, process_times, process_times-rests}
use local_first_job_queue.Tests.Samples.{quiet_env, start, email, minute, two_jobs}

-- Two jobs wait.
abbrev waiting : World
waiting = perform_all quiet_env two_jobs start

waiting-WellFormed : WellFormed waiting.db
waiting-WellFormed = perform_all-WellFormed quiet_env two_jobs start empty-WellFormed

perform_all-Reads_example : Reads (perform_all quiet_env two_jobs start).db
perform_all-Reads_example = perform_all-Reads quiet_env two_jobs start empty-Reads

waiting-Reads : Reads waiting.db
waiting-Reads = perform_all-Reads quiet_env two_jobs start empty-Reads

inspect-perform_all_example :
    (snap : QueueSnapshot) × (inspect quiet_env waiting
      ≡ (ok snap, record waiting { ticks = suc (suc (suc waiting.ticks)) }))
    × ((rows : List Row) × Perm rows waiting.db.jobs × (snap.jobs ≡ map read_job rows))
    × (snap.events ≡ map read_event (take 1000 (reverse waiting.db.events)))
    × ((s : JobState) → Tally s waiting.db.jobs (snap.stats s))
inspect-perform_all_example =
    inspect-perform_all quiet_env two_jobs start empty-Reads refl refl refl

-- Three attempts each.
waiting_left : all_left waiting.db.jobs ≡ 6
unfolding all_left perform_all ◌>>=◌ time_now statement new_text find? eq_text
waiting_left = refl

abbrev settings : Settings
settings = record { kind = email; lease_duration = minute; lease_renewal_interval = minute }

abbrev breaks : Job → Outcome
breaks j = returns_error (handler_error (bytes "no route"))

abbrev no_text : Failure → Text
no_text x = []

process_times-rests_example :
    (k : ℕ) × (k ≤ 6)
    × IsIdle quiet_env settings breaks no_text
        (process_times quiet_env settings breaks no_text k waiting)
process_times-rests_example =
    process_times-rests quiet_env settings breaks no_text (λ n. refl) (λ n. (b'r', n ∷ [], refl)) 6
      waiting waiting-WellFormed waiting-Reads (omega (arith, waiting_left))
