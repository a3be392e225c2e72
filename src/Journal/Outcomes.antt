-- ===== src/Journal/Outcomes.antt =====
-- Acknowledgements, failure reports and renewals keep the log of each job in step with its row.
use local_first_job_queue.Prelude.{
  ◌≡◌, ◌≢◌, refl, sym, subst, ◌∙◌, ℕ, ◌≤◌, ◌<◌, inl, inr, Bool, true, Option, none, some, [], ◌∷◌,
  ◌++◌, Text, eq_text, eq_text_iff, find?, arith, Option-cases, suc,
}
use local_first_job_queue.Prelude.Predicates.{find?-test, All-find?}
use local_first_job_queue.Clock.{Duration, format, add}
use local_first_job_queue.Models.{
  EventType, Metadata, acknowledged, is_leased, leased, completed, lease_renewed,
}
use local_first_job_queue.Store.{Row, World, Env, time_now, statement, ◌>>=◌}
use local_first_job_queue.Store.Rows.{update_where, scan_row}
use local_first_job_queue.Store.Changes.{holds_lease, complete_row, holds_token, renew_row}
use local_first_job_queue.Store.Insert.{insert_event, event_row}
use local_first_job_queue.Store.Lookup.{find_id, find_id_of_found}
use local_first_job_queue.Store.Readable.{IsReadable, scan_job-IsReadable, renew_row-IsReadable}
use local_first_job_queue.Statements.Shape.{WellFormed}
use local_first_job_queue.Statements.Reading.{Reads}
use local_first_job_queue.Queue.{acknowledge, renew}
use local_first_job_queue.Queue.Idempotency.{IsQuiet}
use local_first_job_queue.Queue.Outcomes.{count-pos}
use local_first_job_queue.Journal.{
  HasBudget, lease_renewed-Allowed, Told-snoc, Tells-later, Journal, log_of, Allowed,
  acknowledged-Allowed,
}
use local_first_job_queue.Journal.Change.{change-Journal, update_where-miss}

-- What is assumed of the outside: no statement fails, the clock has started and does not go back,
-- and the random source gives no empty text.
pub record IsRegular (e : Env) : Type 0 where
  pub quiet : IsQuiet e
  pub forward : (m n : ℕ) → m ≤ n → e.now m ≤ e.now n
  pub running : (n : ℕ) → 0 < e.now n
  pub draws : (n : ℕ) → e.random n ≢ some []

-- The tables at one moment.
pub record IsKept (e : Env) (w : World) : Type 0 where
  pub well : WellFormed w.db
  pub reads : Reads w.db
  pub journal : Journal (e.now w.ticks) w.db.jobs w.db.events

abbrev pub IsJournal : Env → World → Type 0
IsJournal e w = Journal (e.now w.ticks) w.db.jobs w.db.events

pub leased_lem : (r : Row) → is_leased r.state ≡ true → leased ≡ r.state
leased_lem r h = ground arith

module _ (e : Env) (regular : IsRegular e) (w : World) (kept : IsKept e w) where
  -- The journal where only the clock went on.
  pub unchanged-Journal : (n : ℕ) → w.ticks ≤ n → Journal (e.now n) w.db.jobs w.db.events
  unchanged-Journal n h id =
      Tells-later (e.now w.ticks) (e.now n) (find_id id w.db.jobs) _ (kept.journal id)
        (regular.forward w.ticks n h)

  -- An update of one job at action `n`, and an event that fits it at action `m`.
  pub stamped-Journal :
      (id : Text) (p : Row → Bool) (f : Row → Row) (r : Row) (t : EventType)
      (metadata : Option Metadata) (n m k : ℕ)
      → find_id id w.db.jobs ≡ some r
      → p r ≡ true
      → ((x : Row) → p x ≡ true → eq_text x.id id ≡ true)
      → ((x : Row) → (f x).id ≡ x.id)
      → (f r).created_at ≡ r.created_at
      → (f r).updated_at ≡ format (e.now n)
      → (HasBudget r → HasBudget (f r))
      → Allowed r.state t (f r).state
      → (w.ticks ≤ n) × (w.ticks ≤ m) × (n ≤ k) × (m ≤ k)
      → Journal
          (e.now k)
          (update_where p f w.db.jobs)
          (w.db.events ++ event_row w.db.next_event id t metadata (format (e.now m)) ∷ [])
  stamped-Journal id p f r t metadata n m k found hit only ids created updated counts allowed
        (wn, wm, nk, mk) =
      change-Journal (e.now w.ticks) (e.now k) w.db.jobs w.db.events _ kept.journal
        (regular.forward _ _ (omega arith)) id p f r found only ids hit refl
        λ told.
          Told-snoc (e.now w.ticks) (e.now k) (e.now m) r (f r) (log_of id w.db.events) _ told
            (record {
              named = subst (λ x. x ≢ []) (sym (ids r)) told.sound.named;
              counts = counts told.sound.counts;
              created = told.sound.created;
              updated = e.now n;
              created_ok = created ∙ told.sound.created_ok;
              updated_ok = updated;
              ordered =
                  omega (arith, told.sound.ordered, told.sound.past, regular.forward w.ticks n);
              past = regular.forward n k nk;
            })
            allowed refl (regular.running m) (regular.forward w.ticks m wm) (regular.forward m k mk)

  -- The row that a guarded update of one job finds.
  pub hit_row :
      (id : Text) (p : Row → Bool) (r : Row)
      → ((x : Row) → p x ≡ true → eq_text x.id id ≡ true)
      → find? p w.db.jobs ≡ some r
      → (find_id id w.db.jobs ≡ some r) × (p r ≡ true)
  hit_row id p r only q =
      let hit = find?-test p w.db.jobs r q in
      (
        subst (λ x. find_id x w.db.jobs ≡ some r) ((eq_text_iff r.id id).0 (only r hit))
            (find_id_of_found p w.db.jobs r kept.well.ids q),
        hit,
      )

  acknowledge_hit :
      (id token : Text) (r : Row)
      → find? (holds_lease id token) w.db.jobs ≡ some r
      → IsJournal e (acknowledge e id token w).1
  unfolding acknowledge ◌>>=◌ time_now statement insert_event
  acknowledge_hit id token r q =
      let p = holds_lease id token in
      let (found, hit) = hit_row id p r (λ x y. ground arith) q in
      let (k, counted) = count-pos p p w.db.jobs r q hit in
      rw (regular.quiet (suc w.ticks), counted, regular.quiet (suc (suc (suc w.ticks))))
        (stamped-Journal id p (complete_row (format (e.now w.ticks))) r acknowledged none w.ticks
          (suc (suc w.ticks)) _ found hit (λ x y. ground arith) (λ x. refl) refl refl
          (λ c. record {
            budget = c.budget;
            retries = c.retries;
            within = c.within;
            attempt_left = λ z. cc;
          })
          (subst (λ s. Allowed s acknowledged completed) (leased_lem r (ground arith))
            acknowledged-Allowed)
          (omega arith))

  acknowledge_miss :
      (id token : Text)
      → find? (holds_lease id token) w.db.jobs ≡ none
      → IsJournal e (acknowledge e id token w).1
  unfolding acknowledge ◌>>=◌ time_now statement insert_event
  acknowledge_miss id [] q =
      let (counted, same) =
        update_where-miss (holds_lease id []) (complete_row (format (e.now w.ticks))) w.db.jobs q in
      rw (regular.quiet (suc w.ticks), counted, same) (unchanged-Journal _ (omega arith))
  acknowledge_miss id (c ∷ cs) q =
      let (counted, same) =
        update_where-miss (holds_lease id (c ∷ cs)) (complete_row (format (e.now w.ticks)))
          w.db.jobs q in
      rw (regular.quiet (suc w.ticks), counted, same) (unchanged-Journal _ (omega arith))

  pub acknowledge-Journal : (id token : Text) → IsJournal e (acknowledge e id token w).1
  acknowledge-Journal id token = elim (Option-cases (find? (holds_lease id token) w.db.jobs)) [
    | inl q ↦ acknowledge_miss id token q
    | inr (r, q) ↦ acknowledge_hit id token r q
  ]

  renew_hit :
      (id token : Text) (duration : Duration) (r : Row)
      → find? (holds_token id token) w.db.jobs ≡ some r
      → IsJournal e (renew e id token duration w).1
  unfolding renew ◌>>=◌ time_now statement insert_event scan_row
  renew_hit id token duration r q =
      let p = holds_token id token in
      let (found, hit) = hit_row id p r (λ x y. ground arith) q in
      let now = e.now w.ticks in
      let s = renew_row (format now) (format (add now duration)) r in
      let readable =
        renew_row-IsReadable now r (All-find? IsReadable p w.db.jobs r kept.reads.jobs q)
          (add now duration) in
      rw
        (
          q,
          regular.quiet (suc w.ticks),
          scan_job-IsReadable s readable,
          regular.quiet (suc (suc (suc w.ticks))),
        )
        (stamped-Journal id p (renew_row (format now) (format (add now duration))) r lease_renewed _
          w.ticks (suc (suc w.ticks)) _ found hit (λ x y. ground arith) (λ x. refl) refl refl
          (λ c. record {
            budget = c.budget;
            retries = c.retries;
            within = c.within;
            attempt_left = c.attempt_left;
          })
          (subst (λ x. Allowed x lease_renewed x) (leased_lem r (ground arith))
            lease_renewed-Allowed)
          (omega arith))

  pub renew-Journal :
      (id token : Text) (duration : Duration) → IsJournal e (renew e id token duration w).1
  unfolding renew ◌>>=◌ time_now statement
  renew-Journal id token duration = elim (Option-cases (find? (holds_token id token) w.db.jobs)) [
    | inl q ↦
        let (counted, same) =
          update_where-miss (holds_token id token)
            (renew_row (format (e.now w.ticks)) (format (add (e.now w.ticks) duration))) w.db.jobs
            q in
        rw (q, regular.quiet (suc w.ticks), same) (unchanged-Journal _ (omega arith))
    | inr (r, q) ↦ renew_hit id token duration r q
  ]
