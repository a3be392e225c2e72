-- ===== src/Journal/Pruning.antt =====
-- A retention run, which deletes old jobs with their events and then trims the logs, keeps the log
-- of each job in step with its row.
use local_first_job_queue.Prelude.{
  ◌≡◌, refl, sym, subst, ap, ◌∙◌, ℕ, inl, inr, Bool, true, false, not, Option, none, some, List, [],
  ◌∷◌, Text, eq_text, eq_text_iff, keep, find?, arith, Bool-cases, Option-cases, if◌then◌else◌,
  some-eq, pos, leb_ℤ,
}
use local_first_job_queue.Prelude.Predicates.{All, Distinct}
use local_first_job_queue.Clock.{Time, Stamp, format, sub}
use local_first_job_queue.Models.{PrunePolicy, RetentionSource}
use local_first_job_queue.Store.{Row, EventRow, Db, World, Env, pure, raise}
use local_first_job_queue.Store.Columns.{column, id_column}
use local_first_job_queue.Store.Lookup.{find_id, others_differ}
use local_first_job_queue.Store.Prune.{
  is_old, is_listed, of_old_job, is_beyond, prune_with_source, is_empty_policy, is_known_source,
}
use local_first_job_queue.Store.Retention.{
  kept_jobs, kept_events, events_by_age, prune_tables, prune-ticks,
}
use local_first_job_queue.Statements.Shape.{Ascends, Ascends-keep}
use local_first_job_queue.Journal.{Told, Tells, Journal, log_of}
use local_first_job_queue.Journal.Suffix.{trimmed-IsLog, trimmed_none}
use local_first_job_queue.Journal.Outcomes.{IsRegular, IsKept, IsJournal, unchanged-Journal}

-- A search among kept rows, none of which have the id.
absent :
    (q : Row → Bool) (id : Text) (rows : List Row)
    → All (λ x. eq_text x.id id ≡ false) rows
    → (find_id id (keep (λ r. not (q r)) rows) ≡ none) × (is_listed id (keep q rows) ≡ false)
unfolding find? keep is_listed
absent q id [] h = (refl, refl)
absent q id (x ∷ xs) h = elim (Bool-cases (q x)) [
  | inl a ↦ rw (a, h.0) (absent q id xs h.1)
  | inr a ↦ rw (a, h.0) (absent q id xs h.1)
]

-- Whether the row of an id is deleted, and its events with it.
deleted :
    (q : Row → Bool) (id : Text) (rows : List Row) (r : Row)
    → Distinct (column id_column rows)
    → find_id id rows ≡ some r
    → (find_id id (keep (λ x. not (q x)) rows) ≡ (if q r then none else some r))
      × (is_listed id (keep q rows) ≡ q r)
unfolding find? keep is_listed
deleted q id [] r d e = cc
deleted q id (x ∷ xs) r d e = elim (Bool-cases (eq_text x.id id)) [
  | inl same ↦
      subst
        (λ y.
          (find_id id (keep (λ z. not (q z)) (x ∷ xs)) ≡ (if q y then none else some y))
          × (is_listed id (keep q (x ∷ xs)) ≡ q y))
        (some-eq (rw same at e)) (first (q x) refl same)
  | inr other ↦ later (q x) refl other (deleted q id xs r d.1 (rw other at e))
]
  where
    first :
        (b : Bool)
        → q x ≡ b
        → eq_text x.id id ≡ true
        → (find_id id (keep (λ z. not (q z)) (x ∷ xs)) ≡ (if q x then none else some x))
          × (is_listed id (keep q (x ∷ xs)) ≡ q x)
    first true a same =
        let rest = absent q id xs (others_differ x xs id d.0 same) in rw (a, same) (rest.0, refl)
    first false a same =
        let rest = absent q id xs (others_differ x xs id d.0 same) in rw (a, same) (refl, rest.1)

    later :
        (b : Bool)
        → q x ≡ b
        → eq_text x.id id ≡ false
        → (find_id id (keep (λ z. not (q z)) xs) ≡ (if q r then none else some r))
          × (is_listed id (keep q xs) ≡ q r)
        → (find_id id (keep (λ z. not (q z)) (x ∷ xs)) ≡ (if q r then none else some r))
          × (is_listed id (keep q (x ∷ xs)) ≡ q r)
    later true a other ih = rw (a, other) ih
    later false a other ih = rw (a, other) ih

-- The events of jobs of a set are deleted whole.
log_of-without :
    (id : Text) (g : Text → Bool) (vs : List EventRow)
    → log_of id (keep (λ (v : EventRow). not (g v.job_id)) vs) ≡ (if g id then [] else log_of id vs)
unfolding keep
log_of-without id g [] = ground arith
log_of-without id g (v ∷ vs) =
    let ih = log_of-without id g vs in
    elim (Bool-cases (eq_text v.job_id id)) [
      | inl q ↦
          let e : g v.job_id ≡ g id = ap g ((eq_text_iff v.job_id id).0 q) in
          elim (Bool-cases (g id)) [
            | inl y ↦ rw (e ∙ y, y) (ih ∙ rw y refl)
            | inr y ↦ rw (e ∙ y, q, y) (ap (λ xs. v ∷ xs) (ih ∙ rw y refl))
          ]
      | inr q ↦ elim (Bool-cases (g v.job_id)) [ inl y ↦ rw (y, q) ih | inr y ↦ rw (y, q) ih ]
    ]

none_without :
    (q : Row → Bool) (id : Text) (rows : List Row)
    → find_id id rows ≡ none
    → find_id id (keep q rows) ≡ none
unfolding find? keep
none_without q id [] h = refl
none_without q id (x ∷ xs) h = ground (arith, none_without q id xs)

-- The deletes by age: a job goes with all its events, or stays with all of them.
aged-Journal :
    (high : Time) (cutoff : Stamp) (d : Db)
    → Distinct (column id_column d.jobs)
    → Journal high d.jobs d.events
    → Journal high
        (keep (λ r. not (is_old cutoff r)) d.jobs)
        (keep (λ v. not (of_old_job cutoff d.jobs v)) d.events)
aged-Journal high cutoff d distinct h id = elim (Option-cases (find_id id d.jobs)) [
  | inl q ↦
      let empty : log_of id d.events ≡ [] =
        subst (λ o. Tells high o (log_of id d.events)) q (h id) in
      rw
        (
          none_without (λ r. not (is_old cutoff r)) id d.jobs q,
          log_of-without id (λ t. is_listed t (keep (is_old cutoff) d.jobs)) d.events,
          empty,
        )
        (ground arith)
  | inr (r, q) ↦
      let told : Told high r (log_of id d.events) =
        subst (λ o. Tells high o (log_of id d.events)) q (h id) in
      let (row, listed) = deleted (is_old cutoff) id d.jobs r distinct q in
      rw (row, log_of-without id (λ t. is_listed t (keep (is_old cutoff) d.jobs)) d.events, listed)
        (elim (Bool-cases (is_old cutoff r)) [ inl o ↦ rw o refl | inr o ↦ rw o told ])
]

-- The delete by rank.
trimmed-Journal :
    (p : PrunePolicy) (high : Time) (next : ℕ) (rows : List Row) (events : List EventRow)
    → Ascends 0 next events
    → Journal high rows events
    → Journal high rows (kept_events p events)
trimmed-Journal p high next rows events a h =
    elim (Bool-cases (leb_ℤ p.max_events_per_job (pos 0))) [
      | inl q ↦ rw q h
      | inr q ↦ rw q λ id. by_row id q (find_id id rows) (h id)
    ]
  where
    by_row :
        (id : Text)
        → leb_ℤ p.max_events_per_job (pos 0) ≡ false
        → (o : Option Row) → Tells high o (log_of id events)
        → Tells high o
            (log_of id (keep (λ v. not (is_beyond p.max_events_per_job events v)) events))
    by_row id q none t = trimmed_none id p.max_events_per_job events t
    by_row id q (some r) t =
        let l =
          trimmed-IsLog id r.state high p.max_events_per_job next events q a (t.replays, t.dated) in
        record { sound = t.sound; replays = l.0; dated = l.1 }

kept-Journal :
    (p : PrunePolicy) (started high : Time) (d : Db)
    → Distinct (column id_column d.jobs)
    → Ascends 0 d.next_event d.events
    → Journal high d.jobs d.events
    → Journal high (kept_jobs p started d) (kept_events p (events_by_age p started d))
kept-Journal p started high d distinct a h = elim (Bool-cases (leb_ℤ p.max_job_age (pos 0))) [
  | inl q ↦ rw q (trimmed-Journal p high d.next_event d.jobs d.events a h)
  | inr q ↦
      let cutoff = format (sub started p.max_job_age) in
      rw q (
        trimmed-Journal p high d.next_event _ _
          (Ascends-keep (λ v. not (of_old_job cutoff d.jobs v)) 0 d.next_event d.events a)
          (aged-Journal high cutoff d distinct h))
]

pub prune-Journal :
    (e : Env) (regular : IsRegular e) (w : World) (kept : IsKept e w) (p : PrunePolicy)
    (source : RetentionSource)
    → IsJournal e (prune_with_source e p source w).1
unfolding prune_with_source pure raise
prune-Journal e regular w kept p source = elim (Bool-cases (is_empty_policy p)) [
  | inl q ↦ rw q kept.journal
  | inr q ↦ elim (Bool-cases (is_known_source source)) [
    | inr u ↦ rw (q, u) kept.journal
    | inl u ↦ runs q u
  ]
]
  where
    runs :
        is_empty_policy p ≡ false
        → is_known_source source ≡ true
        → IsJournal e (prune_with_source e p source w).1
    runs q u =
        let (jobs, events, _) = prune_tables e p source w regular.quiet q u in
        let after =
          unchanged-Journal e regular w kept (prune_with_source e p source w).1.ticks
            (prune-ticks e p source w regular.quiet) in
        subst
          (λ rows.
            Journal (e.now (prune_with_source e p source w).1.ticks) rows
              (prune_with_source e p source w).1.db.events)
          (sym jobs)
          (subst
            (Journal (e.now (prune_with_source e p source w).1.ticks)
              (kept_jobs p (e.now w.ticks) w.db))
            (sym events) (kept-Journal p (e.now w.ticks) _ w.db kept.well.ids kept.well.log after))
