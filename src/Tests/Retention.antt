-- ===== src/Tests/Retention.antt =====
-- Retention runs and a page of a search.
use local_first_job_queue.Prelude.{
  ◌≡◌, ◌++◌, refl, ℕ, ◌+◌, ◌*◌, ◌==◌, List, [], ◌∷◌, bytes, length, find?, eq_text, keep, count,
  pos, map, compare_text,
}
use local_first_job_queue.Clock.{Time, nanos, format, compare_stamp, stamp_lt}
use local_first_job_queue.Models.{PrunePolicy, PruneResult, manual}
use local_first_job_queue.Store.{
  Row, EventRow, Db, World, Env, empty, ok, driver, statement, time_now, ◌>>=◌,
}
use local_first_job_queue.Store.Rows.{update_where}
use local_first_job_queue.Store.Prune.{prune_with_source}
use local_first_job_queue.Store.Retention.{prune-atomic}
use local_first_job_queue.Store.Kept.{prune_keeps}
use local_first_job_queue.Store.Removal.{Without, IsOutdated, IsOfOutdated, IsSurplus}
use local_first_job_queue.Queue.{enqueue_defaults, new_job}
use local_first_job_queue.Statements.{Statement, inserts, claims, completes, run, run_all}
use local_first_job_queue.Tests.Samples.{quiet_env, email, first_id, second_id, start_second}

abbrev noon : ℕ
noon = start_second * nanos

abbrev later : ℕ → Time
later n = (start_second + n) * nanos

abbrev finished : List Statement
finished =
    inserts first_id email (bytes "a") enqueue_defaults noon
    ∷ claims quiet_env email (later 1) (later 61) (bytes "T")
    ∷ completes first_id (bytes "T") (later 2)
    ∷ inserts second_id email (bytes "b") enqueue_defaults noon
    ∷ []

-- A completed job and a pending one.
two_rows : Db
unfolding run_all run find? update_where count keep eq_text new_job compare_text compare_stamp
two_rows = run_all finished empty

abbrev one_second : PrunePolicy
one_second = record { max_job_age = pos nanos; max_events_per_job = pos 2 }

-- The commit fails.
abbrev bad_commit : Env
bad_commit = record quiet_env { fails = λ n. n == 1006 }

abbrev late : World
late = record { db = two_rows; ticks = 1000 }

prune-atomic_example : (prune_with_source bad_commit one_second manual late).1.db ≡ two_rows
unfolding prune_with_source ◌>>=◌ time_now statement keep count compare_text compare_stamp
prune-atomic_example = prune-atomic bad_commit one_second manual late driver refl

prune_keeps_example :
    let started = quiet_env.now 1000 in
    let v = (prune_with_source quiet_env one_second manual late).1 in
    Without (IsOutdated one_second started) two_rows.jobs v.db.jobs
    × ((left : List EventRow) × Without
          (IsOfOutdated one_second started two_rows.jobs)
          two_rows.events
          left
        × Without (IsSurplus one_second left) left v.db.events)
    × ((res : PruneResult) × ((prune_with_source quiet_env one_second manual late).0 ≡ ok res)
        × (res.jobs_removed + length v.db.jobs ≡ length two_rows.jobs)
        × (res.events_removed + length v.db.events ≡ length two_rows.events)
        × (v.db.runs
            ≡ two_rows.runs
              ++ record {
                id = two_rows.next_run;
                started_at = format started;
                source = manual;
                max_job_age = one_second.max_job_age;
                max_events_per_job = one_second.max_events_per_job;
                jobs_removed = res.jobs_removed;
                events_removed = res.events_removed;
              }
                ∷ []))
prune_keeps_example = prune_keeps quiet_env one_second manual late (λ n. refl) refl refl

-- The completed job goes.
pruned_ids :
    map (λ (r : Row). r.id) (prune_with_source quiet_env one_second manual late).1.db.jobs
    ≡ second_id ∷ []
unfolding prune_with_source ◌>>=◌ time_now statement keep count compare_text compare_stamp two_rows
    stamp_lt format
pruned_ids = refl
