-- ===== src/Statements.antt =====
-- The statements by which internal/queue/sqlite.go and prune.go change the tables, as one type.
--
-- SQLite runs each write alone, so several worker processes on one file are an interleaving of
-- their statements: a list of them, in any order, with any arguments. What holds of every such
-- list holds of the shared file. The arguments of a statement are what its sender read before, and
-- may be out of date when it runs.
pub mod Refine
pub mod Shape
pub mod Exclusive
pub mod Grants
pub mod Dispatch
pub mod Races
pub mod Reading
use local_first_job_queue.Prelude.{◌≡◌, refl, Bool, Option, List, [], ◌∷◌, Text, ℤ, ◌++◌}
use local_first_job_queue.Clock.{Time, format}
use local_first_job_queue.Models.{
  Job, EventType, Metadata, RetentionSource, PrunePolicy, PruneResult,
}
use local_first_job_queue.Store.{Db, Env}
use local_first_job_queue.Store.Rows.{update, update_returning}
use local_first_job_queue.Store.Claim.{claim, is_pending_id, lease_row}
use local_first_job_queue.Store.Insert.{row_of, insert_row, insert_event}
use local_first_job_queue.Store.Changes.{
  holds_lease, complete_row, fail_row, holds_token, renew_row, is_dead_lettered_id, requeue_row,
}
use local_first_job_queue.Store.Recover.{recover_row}
use local_first_job_queue.Store.Prune.{delete_old_events, delete_old_jobs, trim_events, insert_run}
use local_first_job_queue.Queue.{EnqueueConfig, new_job}

pub data Statement : Type 0 where
  inserts : Text → Text → Text → EnqueueConfig → Time → Statement
  claims : Env → Text → Time → Time → Text → Statement
  claims_id : Text → Time → Time → Text → Statement
  completes : Text → Text → Time → Statement
  fails : Text → Text → Bool → Time → Statement
  renews : Text → Text → Time → Time → Statement
  requeues : Text → ℤ → Option Text → Time → Statement
  recovers : Time → Job → Statement
  appends : Text → EventType → Option Metadata → Time → Statement
  deletes_old_events deletes_old_jobs : Time → Statement
  trims : ℤ → Statement
  records_run : Time → RetentionSource → PrunePolicy → PruneResult → Statement

unfoldable pub run : Statement → Db → Db
unfolding update update_returning claim insert_row row_of insert_event recover_row delete_old_events
    delete_old_jobs trim_events insert_run
run (inserts id kind payload cfg now) d =
    (insert_row (row_of (new_job id kind payload cfg now)) d).1
run (claims e kind now until token) d = (claim e kind (format now) (format until) token d).1
run (claims_id id now until token) d =
    (update_returning (is_pending_id id) (lease_row (format now) (format until) token) d).1
run (completes id token now) d = (update (holds_lease id token) (complete_row (format now)) d).1
run (fails id token retry now) d = (update (holds_lease id token) (fail_row retry (format now)) d).1
run (renews id token now until) d =
    (update_returning (holds_token id token) (renew_row (format now) (format until)) d).1
run (requeues id max_attempts payload now) d =
    (update (is_dead_lettered_id id) (requeue_row max_attempts payload (format now)) d).1
run (recovers now j) d = (recover_row (format now) j d).1
run (appends id event_type metadata at) d = (insert_event id event_type metadata at d).1
run (deletes_old_events cutoff) d = (delete_old_events (format cutoff) d).1
run (deletes_old_jobs cutoff) d = (delete_old_jobs (format cutoff) d).1
run (trims limit) d = (trim_events limit d).1
run (records_run started source p res) d = (insert_run started source p res d).1

-- A list of statements, from whatever processes, in the order in which SQLite runs them.
unfoldable pub run_all : List Statement → Db → Db
run_all [] d = d
run_all (s ∷ ss) d = run_all ss (run s d)

-- `v` comes from `d` by some statements.
pub record Follows (d v : Db) : Type 0 where
  pub statements : List Statement
  pub result : run_all statements d ≡ v

pub run_all-append :
    (xs ys : List Statement) (d : Db) → run_all (xs ++ ys) d ≡ run_all ys (run_all xs d)
unfolding run_all
run_all-append [] ys d = refl
run_all-append (s ∷ xs) ys d = run_all-append xs ys (run s d)
