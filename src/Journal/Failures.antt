-- ===== src/Journal/Failures.antt =====
-- A failure report keeps the log of each job in step with its row.
use local_first_job_queue.Prelude.{
  ◌≡◌, refl, sym, subst, ◌∙◌, ℕ, inl, inr, Bool, true, false, none, some, ◌∷◌, Text, find?, arith,
  Bool-cases, Option-cases, some-eq, suc, pos, ◌+ℤ◌, +ℤ_parts, ltb_ℤ,
}
use local_first_job_queue.Prelude.Predicates.{All-find?}
use local_first_job_queue.Clock.{Stamp, format}
use local_first_job_queue.Models.{leased}
use local_first_job_queue.Store.{Row, World, Env, time_now, statement, ◌>>=◌}
use local_first_job_queue.Store.Rows.{has_id, get_job, scan_row}
use local_first_job_queue.Store.Changes.{holds_lease, fail_row, retry_state}
use local_first_job_queue.Store.Insert.{insert_event}
use local_first_job_queue.Store.Lookup.{find_id}
use local_first_job_queue.Store.Readable.{IsReadable, scanned, scan_job-IsReadable}
use local_first_job_queue.Queue.{fail, fail_known, should_retry, failure_event, is_foreign}
use local_first_job_queue.Queue.Outcomes.{count-pos}
use local_first_job_queue.Journal.{HasBudget, Allowed, retried-Allowed, dead_lettered-Allowed}
use local_first_job_queue.Journal.Change.{update_where-miss}
use local_first_job_queue.Journal.Outcomes.{
  IsRegular, IsKept, IsJournal, hit_row, stamped-Journal, unchanged-Journal, leased_lem,
}

failure-Allowed : (retry : Bool) → Allowed leased (failure_event retry) (retry_state retry)
failure-Allowed true = retried-Allowed
failure-Allowed false = dead_lettered-Allowed

fail_row-HasBudget :
    (now : Stamp) (r : Row)
    → r.state ≡ leased
    → HasBudget r
    → HasBudget (fail_row (ltb_ℤ (r.retry_count +ℤ pos 1) r.max_attempts) now r)
fail_row-HasBudget now r s c =
    let left = c.attempt_left (rw s) in
    elim (Bool-cases (ltb_ℤ (r.retry_count +ℤ pos 1) r.max_attempts)) [
      | inl q ↦ rw q (record {
        budget = c.budget;
        retries = ground (arith, c.retries, +ℤ_parts r.retry_count (pos 1));
        within = ground (arith, left, +ℤ_parts r.retry_count (pos 1));
        attempt_left = λ _. ground arith;
      })
      | inr q ↦ rw q (record {
        budget = c.budget;
        retries = ground (arith, c.retries, +ℤ_parts r.retry_count (pos 1));
        within = ground (arith, left, +ℤ_parts r.retry_count (pos 1));
        attempt_left = λ z. cc;
      })
    ]

module _ (e : Env) (regular : IsRegular e) (w : World) (kept : IsKept e w) (id : Text) (c : ℕ)
    (cs message : Text) where
  fail_hit :
      (r : Row) (readable : IsReadable r)
      → find_id id w.db.jobs ≡ some r
      → is_foreign (c ∷ cs) (scanned r readable) ≡ false
      → holds_lease id (c ∷ cs) r ≡ true
      → IsJournal e (fail e id (c ∷ cs) message w).1
  unfolding fail ◌>>=◌ time_now statement insert_event get_job scan_row fail_known scanned
  fail_hit r readable found own hit =
      let p = holds_lease id (c ∷ cs) in
      let j = scanned r readable in
      let state = leased_lem r (ground arith) in
      let (k, counted) = count-pos p (has_id id) w.db.jobs r found hit in
      rw
        (
          regular.quiet w.ticks,
          found,
          scan_job-IsReadable r readable,
          own,
          regular.quiet (suc (suc w.ticks)),
          counted,
          regular.quiet (suc (suc (suc (suc w.ticks)))),
        )
        (stamped-Journal e regular w kept id p
          (fail_row (should_retry j) (format (e.now (suc w.ticks)))) r
          (failure_event (should_retry j)) _ (suc w.ticks) (suc (suc (suc w.ticks))) _ found hit
          (λ x y. ground arith) (λ x. refl) refl refl (fail_row-HasBudget _ r (sym state))
          (subst (λ s. Allowed s (failure_event (should_retry j)) (retry_state (should_retry j)))
            state (failure-Allowed (should_retry j)))
          (omega arith))

  fail_miss :
      (r : Row) (readable : IsReadable r)
      → find_id id w.db.jobs ≡ some r
      → is_foreign (c ∷ cs) (scanned r readable) ≡ false
      → find? (holds_lease id (c ∷ cs)) w.db.jobs ≡ none
      → IsJournal e (fail e id (c ∷ cs) message w).1
  unfolding fail ◌>>=◌ time_now statement get_job scan_row fail_known
  fail_miss r readable found own q =
      let j = scanned r readable in
      let (counted, same) =
        update_where-miss (holds_lease id (c ∷ cs))
          (fail_row (should_retry j) (format (e.now (suc w.ticks)))) w.db.jobs q in
      rw
        (
          regular.quiet w.ticks,
          found,
          scan_job-IsReadable r readable,
          own,
          regular.quiet (suc (suc w.ticks)),
          counted,
          same,
        )
        (unchanged-Journal e regular w kept _ (omega arith))

  fail_found :
      (r : Row) → find_id id w.db.jobs ≡ some r → IsJournal e (fail e id (c ∷ cs) message w).1
  unfolding fail ◌>>=◌ statement get_job scan_row
  fail_found r found =
      let readable = All-find? IsReadable (has_id id) w.db.jobs r kept.reads.jobs found in
      elim (Bool-cases (is_foreign (c ∷ cs) (scanned r readable))) [
        | inl foreign ↦
            rw (regular.quiet w.ticks, found, scan_job-IsReadable r readable, foreign)
              (unchanged-Journal e regular w kept _ (omega arith))
        | inr own ↦ elim (Option-cases (find? (holds_lease id (c ∷ cs)) w.db.jobs)) [
          | inl q ↦ fail_miss r readable found own q
          | inr (s, q) ↦
              let (held, hit) =
                hit_row e regular w kept id (holds_lease id (c ∷ cs)) s (λ x y. ground arith) q in
              let same : s ≡ r = some-eq (sym held ∙ found) in
              fail_hit r readable found own (subst (λ x. holds_lease id (c ∷ cs) x ≡ true) same hit)
        ]
      ]

  pub fail-Journal : IsJournal e (fail e id (c ∷ cs) message w).1
  unfolding fail ◌>>=◌ statement get_job scan_row
  fail-Journal = elim (Option-cases (find_id id w.db.jobs)) [
    | inl q ↦ rw (regular.quiet w.ticks, q) (unchanged-Journal e regular w kept _ (omega arith))
    | inr (r, found) ↦ fail_found r found
  ]
