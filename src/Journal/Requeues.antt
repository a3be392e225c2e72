-- ===== src/Journal/Requeues.antt =====
-- A requeue keeps the log of each job in step with its row.
use local_first_job_queue.Prelude.{
  ◌≡◌, refl, sym, subst, inl, inr, Option, some, Text, arith, Bool-cases, Option-cases, suc, pos,
  leb_ℤ,
}
use local_first_job_queue.Prelude.Predicates.{All-find?, find?-test}
use local_first_job_queue.Clock.{Stamp, format}
use local_first_job_queue.Models.{Job, dead_letter, pending, requeued, is_dead_letter}
use local_first_job_queue.Store.{Row, World, Env, statement, ◌>>=◌}
use local_first_job_queue.Store.Rows.{has_id, get_job, scan_row}
use local_first_job_queue.Store.Changes.{is_dead_lettered_id, requeue_row}
use local_first_job_queue.Store.Insert.{insert_event}
use local_first_job_queue.Store.Lookup.{find_id}
use local_first_job_queue.Store.Readable.{IsReadable, scanned, scan_job-IsReadable}
use local_first_job_queue.Queue.{requeue, RequeueConfig, requeue_budget}
use local_first_job_queue.Queue.Requeues.{requeue_runs}
use local_first_job_queue.Journal.{HasBudget, Allowed, requeued-Allowed}
use local_first_job_queue.Journal.Outcomes.{
  IsRegular, IsKept, IsJournal, stamped-Journal, unchanged-Journal,
}

requeue_row-HasBudget :
    (cfg : RequeueConfig) (j : Job) (payload : Option Text) (now : Stamp) (r : Row)
    → j.max_attempts ≡ r.max_attempts
    → HasBudget r
    → HasBudget (requeue_row (requeue_budget cfg j) payload now r)
requeue_row-HasBudget cfg j payload now r e c = elim (Bool-cases (leb_ℤ (pos 1) cfg.max_attempts)) [
  | inl q ↦ rw q (record {
    budget = ground arith;
    retries = omega arith;
    within = ground arith;
    attempt_left = λ _. ground arith;
  })
  | inr q ↦
      rw (q, e)
        (record {
          budget = c.budget;
          retries = omega arith;
          within = ground (arith, c.budget);
          attempt_left = λ _. ground (arith, c.budget);
        })
]

module _ (e : Env) (regular : IsRegular e) (w : World) (kept : IsKept e w) (id : Text)
    (cfg : RequeueConfig) where
  requeue_hit :
      (r : Row)
      → find_id id w.db.jobs ≡ some r
      → r.state ≡ dead_letter
      → IsJournal e (requeue e id cfg w).1
  unfolding insert_event scanned
  requeue_hit r found dead =
      let readable = All-find? IsReadable (has_id id) w.db.jobs r kept.reads.jobs found in
      let j = scanned r readable in
      rw
        (
          requeue_runs e w id cfg r readable found dead (regular.quiet _) (regular.quiet _)
              (regular.quiet _),
          regular.quiet (suc (suc (suc (suc (suc w.ticks))))),
        )
        (stamped-Journal e regular w kept id (is_dead_lettered_id id)
          (requeue_row (requeue_budget cfg j) cfg.payload (format (e.now (suc w.ticks)))) r requeued
          _ (suc w.ticks) (suc (suc (suc (suc w.ticks)))) _ found
          (ground (arith, find?-test (has_id id) w.db.jobs r found, dead)) (λ x y. ground arith)
          (λ x. refl) refl refl (requeue_row-HasBudget cfg j cfg.payload _ r refl)
          (subst (λ s. Allowed s requeued pending) (sym dead) requeued-Allowed) (omega arith))

  requeue_found : (r : Row) → find_id id w.db.jobs ≡ some r → IsJournal e (requeue e id cfg w).1
  unfolding requeue ◌>>=◌ statement get_job scan_row scanned
  requeue_found r found =
      let readable = All-find? IsReadable (has_id id) w.db.jobs r kept.reads.jobs found in
      elim (Bool-cases (is_dead_letter r.state)) [
        | inl dead ↦ requeue_hit r found (ground arith)
        | inr other ↦
            rw (regular.quiet w.ticks, found, scan_job-IsReadable r readable, other)
              (unchanged-Journal e regular w kept _ (omega arith))
      ]

  pub requeue-Journal : IsJournal e (requeue e id cfg w).1
  unfolding requeue ◌>>=◌ statement get_job scan_row
  requeue-Journal = elim (Option-cases (find_id id w.db.jobs)) [
    | inl q ↦ rw (regular.quiet w.ticks, q) (unchanged-Journal e regular w kept _ (omega arith))
    | inr (r, found) ↦ requeue_found r found
  ]
