-- ===== src/Queue/Requeues.antt =====
-- What `Requeue` does to a dead-lettered job.
use local_first_job_queue.Prelude.{
  suc, ◌+◌, ◌≡◌, ◌∙◌, refl, true, false, Option, some, List, Text, Bool-cases, inl, inr, arith,
  if◌then◌else◌, ℤ,
}
use local_first_job_queue.Prelude.Predicates.{find?-test}
use local_first_job_queue.Clock.{format}
use local_first_job_queue.Models.{dead_letter, requeued, attempts_reset}
use local_first_job_queue.Store.{Row, Db, World, Env, ok, err, driver, time_now, statement, ◌>>=◌}
use local_first_job_queue.Store.Rows.{update, update_where, set_jobs, has_id, get_job, scan_row}
use local_first_job_queue.Store.Changes.{
  is_dead_lettered_id, requeue_row, requeue_job, requeued_rows,
}
use local_first_job_queue.Store.Insert.{insert_event}
use local_first_job_queue.Store.Lookup.{find_id, find_id-update_where}
use local_first_job_queue.Store.Readable.{
  IsReadable, scanned, scan_job-IsReadable, requeue_row-IsReadable,
}
use local_first_job_queue.Queue.{RequeueConfig, requeue_budget, requeue_known, requeue}
use local_first_job_queue.Queue.Outcomes.{count-pos}

-- The jobs after the update of `RequeueJob`.
abbrev pub requeued_jobs : Env → World → Text → ℤ → Option Text → List Row
requeued_jobs e w id budget payload =
    update_where (is_dead_lettered_id id)
      (requeue_row budget payload (format (e.now (suc w.ticks)))) w.db.jobs

module _ (e : Env) (w : World) (id : Text) (cfg : RequeueConfig) (r : Row) (readable : IsReadable r)
    (found : find_id id w.db.jobs ≡ some r) (dead : r.state ≡ dead_letter) where
  abbrev pub budget : ℤ
  budget = requeue_budget cfg (scanned r readable)

  abbrev pub new_row : Row
  new_row = requeue_row budget cfg.payload (format (e.now (suc w.ticks))) r

  abbrev pub new_row-IsReadable : IsReadable new_row
  new_row-IsReadable = requeue_row-IsReadable (e.now (suc w.ticks)) r readable budget cfg.payload

  chosen : is_dead_lettered_id id r ≡ true
  chosen = ground (arith, find?-test (has_id id) w.db.jobs r found, dead)

  pub found_after : find_id id (requeued_jobs e w id budget cfg.payload) ≡ some new_row
  found_after =
      find_id-update_where id (is_dead_lettered_id id) _ w.db.jobs (λ s. refl)
      ∙ rw (found, chosen) refl

  -- The tables after the update, and after the event.
  abbrev pub updated_db : Db
  updated_db = set_jobs w.db (requeued_jobs e w id budget cfg.payload)

  abbrev pub logged_db : Db
  logged_db =
      (insert_event id requeued (some (attempts_reset budget))
        (e.now (suc (suc (suc (suc w.ticks))))) updated_db).1

  -- Where the statements before the event succeed, the job is requeued, and the event's statement
  -- decides what is reported.
  pub requeue_runs :
      e.fails w.ticks ≡ false
      → e.fails (suc (suc w.ticks)) ≡ false
      → e.fails (suc (suc (suc w.ticks))) ≡ false
      → requeue e id cfg w ≡ (
          if e.fails (suc (suc (suc (suc (suc w.ticks)))))
          then (err driver, record { db = updated_db; ticks = w.ticks + 6 })
          else (
            ok (scanned new_row new_row-IsReadable),
            record { db = logged_db; ticks = w.ticks + 6 },
          ))
  unfolding requeue requeue_known requeue_job requeued_rows get_job scan_row ◌>>=◌ time_now
      statement update scanned insert_event
  requeue_runs a b c =
      let (n, counted) = count-pos (is_dead_lettered_id id) (has_id id) w.db.jobs r found chosen in
      rw
        (
          a,
          found,
          scan_job-IsReadable r readable,
          dead,
          b,
          counted,
          c,
          found_after,
          scan_job-IsReadable new_row new_row-IsReadable,
        )
        (elim (Bool-cases (e.fails (suc (suc (suc (suc (suc w.ticks))))))) [
          | inl d ↦ rw d (ground arith)
          | inr d ↦ rw d (ground arith)
        ])
