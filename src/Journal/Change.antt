-- ===== src/Journal/Change.antt =====
-- An update of one job together with its event, and a new job with its first event.
use local_first_job_queue.Prelude.{
  ◌≡◌, refl, subst, ◌∙◌, ◌≤◌, inl, inr, Bool, true, false, none, some, List, [], ◌∷◌, ◌++◌, Text,
  eq_text, eq_text_iff, eq_text_refl, keep, find?, count, arith, Bool-cases, if◌then◌else◌,
}
use mathlib.Core.List.{append-nil}
use local_first_job_queue.Clock.{Time}
use local_first_job_queue.Store.{Row, EventRow}
use local_first_job_queue.Store.Rows.{update_where, has_id}
use local_first_job_queue.Store.Lookup.{find_id, find_id-update_where}
use local_first_job_queue.Journal.{Tells, Told, Journal, log_of, Tells-later}

keep-append {ℓ} :
    {A : Type ℓ} (p : A → Bool) (xs ys : List A) → keep p (xs ++ ys) ≡ keep p xs ++ keep p ys
unfolding keep
keep-append p [] ys = refl
keep-append p (x ∷ xs) ys = elim (Bool-cases (p x)) [
  | inl q ↦ rw (q, keep-append p xs ys) refl
  | inr q ↦ rw (q, keep-append p xs ys) refl
]

pub log_of-snoc :
    (id : Text) (vs : List EventRow) (v : EventRow)
    → v.job_id ≡ id
    → log_of id (vs ++ v ∷ []) ≡ log_of id vs ++ v ∷ []
unfolding keep
log_of-snoc id vs v e = keep-append _ vs (v ∷ []) ∙ rw (e, eq_text_refl id) refl

pub log_of-snoc_other :
    (id : Text) (vs : List EventRow) (v : EventRow)
    → eq_text v.job_id id ≡ false
    → log_of id (vs ++ v ∷ []) ≡ log_of id vs
unfolding keep
log_of-snoc_other id vs v e = keep-append _ vs (v ∷ []) ∙ rw e (append-nil _)

-- A search that the first rows do not answer goes on to the last.
find?-snoc {ℓ} :
    {A : Type ℓ} (p : A → Bool) (xs : List A) (x : A)
    → find? p xs ≡ none
    → find? p (xs ++ x ∷ []) ≡ (if p x then some x else none)
unfolding find?
find?-snoc p [] x h = refl
find?-snoc p (y ∷ ys) x h = elim (Bool-cases (p y)) [
  | inl q ↦ absurd (ground (arith, q))
  | inr q ↦ rw q (find?-snoc p ys x (rw q at h))
]

find?-snoc_other {ℓ} :
    {A : Type ℓ} (p : A → Bool) (xs : List A) (x : A)
    → p x ≡ false
    → find? p (xs ++ x ∷ []) ≡ find? p xs
unfolding find?
find?-snoc_other p [] x h = rw h refl
find?-snoc_other p (y ∷ ys) x h = rw (find?-snoc_other p ys x h) refl

-- An update of rows with one id leaves the row of another id as it was.
pub untouched :
    (id other : Text) (p : Row → Bool) (f : Row → Row) (rows : List Row)
    → ((x : Row) → p x ≡ true → eq_text x.id id ≡ true)
    → ((x : Row) → (f x).id ≡ x.id)
    → eq_text id other ≡ false
    → find_id other (update_where p f rows) ≡ find_id other rows
unfolding find? update_where
untouched id other p f [] only ids n = refl
untouched id other p f (r ∷ rs) only ids n = elim (Bool-cases (p r)) [
  | inl q ↦
      rw (q, ids r, (eq_text_iff r.id id).0 (only r q), n) (untouched id other p f rs only ids n)
  | inr q ↦ rw (q, untouched id other p f rs only ids n) refl
]

-- An update that no row passes changes nothing.
pub update_where-miss :
    (p : Row → Bool) (f : Row → Row) (rows : List Row)
    → find? p rows ≡ none
    → (count p rows ≡ 0) × (update_where p f rows ≡ rows)
unfolding update_where find? count
update_where-miss p f [] h = (refl, refl)
update_where-miss p f (r ∷ rs) h = elim (Bool-cases (p r)) [
  | inl q ↦ absurd (ground (arith, q))
  | inr q ↦
      let (none_counted, same) = update_where-miss p f rs (rw q at h) in
      rw (q, none_counted, same) (refl, refl)
]

module _ (mid high : Time) (rows : List Row) (events : List EventRow) (v : EventRow)
    (journal : Journal mid rows events) (later : mid ≤ high) where
  -- The row of one job is changed, and an event of the job is appended.
  pub change-Journal :
      (id : Text) (p : Row → Bool) (f : Row → Row) (r : Row)
      → find_id id rows ≡ some r
      → ((x : Row) → p x ≡ true → eq_text x.id id ≡ true)
      → ((x : Row) → (f x).id ≡ x.id)
      → p r ≡ true
      → v.job_id ≡ id
      → (Told mid r (log_of id events) → Told high (f r) (log_of id events ++ v ∷ []))
      → Journal high (update_where p f rows) (events ++ v ∷ [])
  change-Journal id p f r found only ids hit mine told other =
      elim (Bool-cases (eq_text id other)) [
        | inl q ↦
            let here : Told high (f r) (log_of id events ++ v ∷ []) =
              told (subst (λ o. Tells mid o (log_of id events)) found (journal id)) in
            let row : find_id id (update_where p f rows) ≡ some (f r) =
              find_id-update_where id p f rows ids ∙ rw (found, hit) refl in
            subst
              (λ x. Tells high (find_id x (update_where p f rows)) (log_of x (events ++ v ∷ [])))
              ((eq_text_iff id other).0 q) (rw (row, log_of-snoc id events v mine) here)
        | inr q ↦
            rw
              (untouched id other p f rows only ids q, log_of-snoc_other other events v (rw mine q))
              (Tells-later mid high (find_id other rows) (log_of other events) (journal other)
                later)
      ]

  -- A row is appended, and the event of its job.
  pub insert-Journal :
      (row : Row)
      → find_id row.id rows ≡ none
      → v.job_id ≡ row.id
      → Told high row (v ∷ [])
      → Journal high (rows ++ row ∷ []) (events ++ v ∷ [])
  insert-Journal row fresh mine told other = elim (Bool-cases (eq_text row.id other)) [
    | inl q ↦
        let empty : log_of row.id events ≡ [] =
          subst (λ o. Tells mid o (log_of row.id events)) fresh (journal row.id) in
        let found : find_id row.id (rows ++ row ∷ []) ≡ some row =
          find?-snoc (has_id row.id) rows row fresh ∙ rw (eq_text_refl row.id) refl in
        subst (λ x. Tells high (find_id x (rows ++ row ∷ [])) (log_of x (events ++ v ∷ [])))
          ((eq_text_iff row.id other).0 q)
          (rw (found, log_of-snoc row.id events v mine, empty) told)
    | inr q ↦
        rw
          (find?-snoc_other (has_id other) rows row q, log_of-snoc_other other events v (rw mine q))
          (Tells-later mid high (find_id other rows) (log_of other events) (journal other) later)
  ]
