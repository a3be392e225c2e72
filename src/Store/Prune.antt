-- ===== src/Store/Prune.antt =====
-- internal/queue/prune.go: one retention run, in one transaction.
use local_first_job_queue.Prelude.{
  ℕ, suc, ◌+◌, Bool, true, false, ◌&&◌, not, List, [], ◌∷◌, ◌++◌, Text, eq_text, keep, count, leb,
  if◌then◌else◌, ℤ, pos, leb_ℤ, ltb_ℤ,
}
use local_first_job_queue.Clock.{Time, Stamp, sub, format, stamp_lt}
use local_first_job_queue.Models.{
  RetentionSource, manual, auto, other_source, PrunePolicy, PruneResult, is_terminal,
}
use local_first_job_queue.Store.{
  Row, EventRow, Db, World, Env, Exec, Result, ok, err, driver, unknown_source, statement, time_now,
  raise, pure, ◌>>=◌,
}

-- `state IN (?, ?, ?) AND updated_at < ?`
unfoldable pub is_old : Stamp → Row → Bool
is_old cutoff r = is_terminal r.state && stamp_lt r.updated_at cutoff

-- `job_id IN (SELECT id FROM jobs WHERE ..)`
unfoldable pub is_listed : Text → List Row → Bool
is_listed id [] = false
is_listed id (r ∷ rs) = let rest = is_listed id rs in if eq_text r.id id then true else rest

-- `DELETE`, for the number of rows deleted.
unfoldable pub delete_events : (EventRow → Bool) → Db → Result ℕ × Db
delete_events p d = (ok (count p d.events), record d { events = keep (λ v. not (p v)) d.events })

unfoldable pub delete_jobs : (Row → Bool) → Db → Result ℕ × Db
delete_jobs p d = (ok (count p d.jobs), record d { jobs = keep (λ r. not (p r)) d.jobs })

abbrev pub of_old_job : Stamp → List Row → EventRow → Bool
of_old_job cutoff jobs v = is_listed v.job_id (keep (is_old cutoff) jobs)

unfoldable pub delete_old_events : Stamp → Db → Result ℕ × Db
unfolding delete_events is_listed is_old
delete_old_events cutoff d = delete_events (of_old_job cutoff d.jobs) d

unfoldable pub delete_old_jobs : Stamp → Db → Result ℕ × Db
unfolding delete_jobs is_old
delete_old_jobs cutoff = delete_jobs (is_old cutoff)

-- `ROW_NUMBER() OVER (PARTITION BY job_id ORDER BY id DESC)`: the job's events from this one on.
unfoldable pub row_number : List EventRow → EventRow → ℕ
row_number events v = count (λ u. eq_text u.job_id v.job_id && leb v.id u.id) events

abbrev pub is_beyond : ℤ → List EventRow → EventRow → Bool
is_beyond limit events v = ltb_ℤ limit (pos (row_number events v))

unfoldable pub trim_events : ℤ → Db → Result ℕ × Db
unfolding delete_events row_number
trim_events limit d = delete_events (is_beyond limit d.events) d

unfoldable pub insert_run :
    Time → RetentionSource → PrunePolicy → PruneResult → Db → Result (Unit {0}) × Db
insert_run started source p res d = (
  ok tt,
  record d {
    runs =
        d.runs
        ++ record {
          id = d.next_run;
          started_at = format started;
          source = source;
          max_job_age = p.max_job_age;
          max_events_per_job = p.max_events_per_job;
          jobs_removed = res.jobs_removed;
          events_removed = res.events_removed;
        }
          ∷ [];
    next_run = suc d.next_run;
  },
)

abbrev pub tick : World → World
tick w = record w { ticks = suc w.ticks }

-- `tx.Commit()`, or the deferred `tx.Rollback()`.
unfoldable pub settle : {A : Type 0} → Env → Db → Result A → World → Result A × World
settle e before (err x) w = (err x, record w { db = before })
settle e before (ok a) w =
    if e.fails w.ticks then (err driver, record (tick w) { db = before }) else (ok a, tick w)

-- What stands between `db.Begin()` and the end of the function that defers the rollback.
unfoldable pub transaction : {A : Type 0} → Env → Exec A → Exec A
unfolding settle
transaction e m w =
    if e.fails w.ticks then (err driver, tick w) else (let (r, v) = m (tick w) in settle e w.db r v)

-- The deletes by age, where the policy has that limit.
unfoldable pub prune_age : Env → Time → PrunePolicy → Exec PruneResult
unfolding delete_old_events delete_old_jobs
prune_age e started p =
    if leb_ℤ p.max_job_age (pos 0)
    then pure (record { jobs_removed = 0; events_removed = 0 })
    else do
      let cutoff = format (sub started p.max_job_age)
      events ← statement e (delete_old_events cutoff)
      jobs ← statement e (delete_old_jobs cutoff)
      pure (record { jobs_removed = jobs; events_removed = events })

-- The delete by rank, where the policy has that limit.
unfoldable pub prune_excess : Env → PrunePolicy → PruneResult → Exec PruneResult
unfolding trim_events
prune_excess e p res = if leb_ℤ p.max_events_per_job (pos 0) then pure res else do
  events ← statement e (trim_events p.max_events_per_job)
  pure (record res { events_removed = res.events_removed + events })

unfoldable pub prune_body : Env → Time → PrunePolicy → RetentionSource → Exec PruneResult
unfolding prune_age prune_excess insert_run
prune_body e started p source = do
  aged ← prune_age e started p
  res ← prune_excess e p aged
  _ ← statement e (insert_run started source p res)
  pure res

abbrev pub is_known_source : RetentionSource → Bool
is_known_source manual = true
is_known_source auto = true
is_known_source (other_source s) = false

-- A policy with no limit.
abbrev pub is_empty_policy : PrunePolicy → Bool
is_empty_policy p = leb_ℤ p.max_job_age (pos 0) && leb_ℤ p.max_events_per_job (pos 0)

-- `PruneWithSource`
unfoldable pub prune_with_source : Env → PrunePolicy → RetentionSource → Exec PruneResult
unfolding transaction prune_body
prune_with_source e p source =
    if is_empty_policy p
    then pure (record { jobs_removed = 0; events_removed = 0 })
    else if not (is_known_source source)
    then raise unknown_source
    else do started ← time_now e; transaction e (prune_body e started p source)

-- `Prune`
unfoldable pub prune : Env → PrunePolicy → Exec PruneResult
unfolding prune_with_source
prune e p = prune_with_source e p manual
