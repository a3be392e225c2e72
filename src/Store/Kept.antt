-- ===== src/Store/Kept.antt =====
-- What a retention run of internal/queue/prune.go leaves in the tables.
use local_first_job_queue.Prelude.{
  ℕ, ◌+◌, ◌≡◌, sym, true, false, List, [], ◌∷◌, ◌++◌, length, subst,
}
use local_first_job_queue.Clock.{format}
use local_first_job_queue.Models.{RetentionSource, PrunePolicy, PruneResult}
use local_first_job_queue.Store.{EventRow, World, Env, ok}
use local_first_job_queue.Store.Prune.{
  prune_with_source, is_empty_policy, is_known_source, insert_run,
}
use local_first_job_queue.Store.Retention.{events_by_age, prune_tables}
use local_first_job_queue.Store.Removal.{
  Without, IsOutdated, IsOfOutdated, IsSurplus, jobs-Without, events-Without, cap-Without,
}

-- Where no statement fails, a retention run with a limit and a known source succeeds. The jobs that
-- go are those that are completed, failed or in the dead letters and were last changed before the
-- age limit, and no others. The events that go are, first, those of these jobs, and of the rest
-- those that are not among the newest of their job, as many as the cap allows; a limit that is not
-- positive removes nothing. The two counts are the numbers of rows that went, and one row with them
-- is added to the history of runs.
pub prune_keeps :
    (e : Env) (p : PrunePolicy) (source : RetentionSource) (w : World)
    → ((n : ℕ) → e.fails n ≡ false)
    → is_empty_policy p ≡ false
    → is_known_source source ≡ true
    → let started = e.now w.ticks in
      let v = (prune_with_source e p source w).1 in
      Without (IsOutdated p started) w.db.jobs v.db.jobs
      × ((left : List EventRow) × Without (IsOfOutdated p started w.db.jobs) w.db.events left
          × Without (IsSurplus p left) left v.db.events)
      × ((res : PruneResult) × ((prune_with_source e p source w).0 ≡ ok res)
          × (res.jobs_removed + length v.db.jobs ≡ length w.db.jobs)
          × (res.events_removed + length v.db.events ≡ length w.db.events)
          × (v.db.runs
              ≡ w.db.runs
                ++ record {
                  id = w.db.next_run;
                  started_at = format started;
                  source = source;
                  max_job_age = p.max_job_age;
                  max_events_per_job = p.max_events_per_job;
                  jobs_removed = res.jobs_removed;
                  events_removed = res.events_removed;
                }
                  ∷ []))
unfolding insert_run
prune_keeps e p source w quiet limited known =
    let started = e.now w.ticks in
    let (jobs, events, (res, runs, jobs_gone, events_gone, history)) =
      prune_tables e p source w quiet limited known in
    let left = events_by_age p started w.db in
    (
      subst (Without (IsOutdated p started) w.db.jobs) (sym jobs) (jobs-Without p started w.db),
      (
        left,
        events-Without p started w.db,
        subst (Without (IsSurplus p left) left) (sym events) (cap-Without p left),
      ),
      (res, runs, jobs_gone, events_gone, history),
    )
