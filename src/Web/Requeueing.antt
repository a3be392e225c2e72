-- ===== src/Web/Requeueing.antt =====
-- The requeue action of the dashboard, and what it reports.
use local_first_job_queue.Prelude.{
  none, ℕ, suc, ◌+◌, ◌≡◌, ◌≢◌, ◌<◌, ◌∙◌, refl, ap, true, false, Option, some, Text, bytes, arith, ℤ,
}
use local_first_job_queue.Clock.{format}
use local_first_job_queue.Models.{Job, dead_letter, pending}
use local_first_job_queue.Store.{Row, World, Env, ok, statement, ◌>>=◌}
use local_first_job_queue.Store.Rows.{get_job, scan_row}
use local_first_job_queue.Store.Lookup.{find_id}
use local_first_job_queue.Store.Readable.{IsReadable, scanned, scan_job-IsReadable}
use local_first_job_queue.Queue.{requeue_budget}
use local_first_job_queue.Queue.Options.{requeue_with_max_attempts, requeue_with_payload}
use local_first_job_queue.Store.Changes.{requeue_row}
use local_first_job_queue.Queue.Requeues.{new_row-IsReadable, updated_db, requeue_runs, found_after}
use local_first_job_queue.Web.{
  with_budget, with_payload, error_json, below_one, requeue_config, requeue_request, requeue_found,
  explain_failure, answer, handle_api_requeue, alone,
}

-- A read of a job whose row is readable.
read :
    (e : Env) (id : Text) (v : World) {s : Row} (readable : IsReadable s)
    → find_id id v.db.jobs ≡ some s
    → e.fails v.ticks ≡ false
    → get_job e id v ≡ (ok (scanned s readable), record v { ticks = suc v.ticks })
unfolding get_job ◌>>=◌ statement scan_row
read e id v readable found q = rw (q, found, scan_job-IsReadable _ readable) refl

-- The budget that a request asks for, or the one that the job has.
abbrev pub budget_or : Option ℤ → ℤ → ℤ
budget_or none m = m
budget_or (some k) m = k

requeue_config-budget :
    (n : Option ℤ) (p : Option Text) (j : Job)
    → below_one n ≡ false
    → requeue_budget (requeue_config n p) j ≡ budget_or n j.max_attempts
unfolding requeue_config with_budget with_payload requeue_with_max_attempts requeue_with_payload
requeue_config-budget none none j valid = refl
requeue_config-budget none (some p) j valid = refl
requeue_config-budget (some n) none j valid = ground (arith, valid)
requeue_config-budget (some n) (some p) j valid = ground (arith, valid)

requeue_config-payload : (n : Option ℤ) (p : Option Text) → (requeue_config n p).payload ≡ p
unfolding requeue_config with_budget with_payload requeue_with_max_attempts requeue_with_payload
requeue_config-payload none none = refl
requeue_config-payload none (some p) = refl
requeue_config-payload (some n) none = refl
requeue_config-payload (some n) (some p) = refl

module _ (e : Env) (w : World) (id : Text) (n : Option ℤ) (p : Option Text) (r : Row)
    (valid : below_one n ≡ false) (readable : IsReadable r) (found : find_id id w.db.jobs ≡ some r)
    (dead : r.state ≡ dead_letter) where
  -- The world after the first read of the job.
  abbrev after_read : World
  after_read = record w { ticks = suc w.ticks }

  -- The row as the request leaves it.
  abbrev pub requeued_row : Row
  requeued_row = requeue_row (budget_or n r.max_attempts) p (format (e.now (suc (suc w.ticks)))) r

  found_requeued :
      find_id id (updated_db e after_read id (requeue_config n p) r readable found dead).jobs
      ≡ some requeued_row
  unfolding scanned
  found_requeued =
      found_after e after_read id (requeue_config n p) r readable found dead
      ∙ rw (requeue_config-budget n p (scanned r readable) valid, requeue_config-payload n p) refl

  -- Where only the statement that appends the event fails, a request with a JSON body for a
  -- dead-lettered job whose timestamps parse, with an attempt budget of at least 1 or none, answers
  -- with status 409, `job is not dead-lettered`, although it did requeue the job: the job is
  -- pending, with the requested budget and payload.
  pub handle_api_requeue_misreports :
      ((k : ℕ) → k ≢ w.ticks + 6 → e.fails k ≡ false)
      → e.fails (w.ticks + 6) ≡ true
      → let (response, v) = handle_api_requeue e true id (alone n p) w in
        (response ≡ record { status = 409; body = error_json (bytes "job is not dead-lettered") })
        × (find_id id v.db.jobs ≡ some requeued_row)
        × (requeued_row.state ≡ pending)
        × (v.db.events ≡ w.db.events)
  unfolding handle_api_requeue requeue_request requeue_found explain_failure answer scanned
  handle_api_requeue_misreports quiet broken =
      let ok_at : (m : ℕ) → m < w.ticks + 6 → e.fails m ≡ false = λ m lt. quiet m (omega arith) in
      let after = found_after e after_read id (requeue_config n p) r readable found dead in
      let runs =
        requeue_runs e after_read id (requeue_config n p) r readable found dead
          (ok_at _ (omega arith)) (ok_at _ (omega arith)) (ok_at _ (omega arith)) in
      let broken_log : e.fails (suc (suc (suc (suc (suc after_read.ticks))))) ≡ true =
        ap e.fails (omega arith) ∙ broken in
      let again =
        read e id
          (record {
            db = updated_db e after_read id (requeue_config n p) r readable found dead;
            ticks = after_read.ticks + 6;
          })
          (new_row-IsReadable e after_read id (requeue_config n p) r readable found dead) after
          (quiet _ (omega arith)) in
      rw (valid, read e id w readable found (ok_at _ (omega arith)), dead, runs, broken_log, again)
        (refl, found_requeued, refl, refl)
