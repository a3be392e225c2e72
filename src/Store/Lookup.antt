-- ===== src/Store/Lookup.antt =====
-- Looking a row up by its id, after the changes that statements make.
use local_first_job_queue.Prelude.{
  ◌≡◌, refl, sym, inl, inr, Bool, true, false, Option, none, some, List, [], ◌∷◌, ◌++◌, Text,
  eq_text, eq_text_iff, eq_text_refl, keep, find?, Bool-cases, arith, some-eq, if◌then◌else◌,
  Ordering,
}
use local_first_job_queue.Prelude.Predicates.{All, All-find?, IsNew, Distinct, eq_text-sym_false}
use local_first_job_queue.Store.{Row}
use local_first_job_queue.Store.Rows.{update_where, map_option, has_id}
use local_first_job_queue.Store.Columns.{column, id_column}
use local_first_job_queue.Store.Claim.{best, better}
use mathlib.Core.Path.{subst}
use local_first_job_queue.Clock.{is_gt}

abbrev pub find_id : Text → List Row → Option Row
find_id id rows = find? (has_id id) rows

pub find_id-update_where :
    (id : Text) (p : Row → Bool) (f : Row → Row) (rows : List Row)
    → ((r : Row) → (f r).id ≡ r.id)
    → find_id id (update_where p f rows)
      ≡ map_option (λ r. if p r then f r else r) (find_id id rows)
unfolding find? update_where
find_id-update_where id p f [] h = refl
find_id-update_where id p f (r ∷ rs) h = ground (arith, h r, find_id-update_where id p f rs h)

module _ {ℓ} {A : Type ℓ} where
  pub find?-append :
      (p : A → Bool) (xs ys : List A) (x : A) → find? p xs ≡ some x → find? p (xs ++ ys) ≡ some x
  unfolding find?
  find?-append p [] ys x h = cc
  find?-append p (y ∷ xs) ys x h = ground (arith, find?-append p xs ys x)

  pub find?-keep :
      (p q : A → Bool) (xs : List A) (x : A)
      → find? p xs ≡ some x
      → q x ≡ true
      → find? p (keep q xs) ≡ some x
  unfolding find? keep
  find?-keep p q [] x h k = cc
  find?-keep p q (y ∷ xs) x h k = ground (arith, find?-keep p q xs x)

  pub keep-test : (p : A → Bool) (xs : List A) → All (λ x. p x ≡ true) (keep p xs)
  unfolding keep
  keep-test p [] = tt
  keep-test p (x ∷ xs) = elim (Bool-cases (p x)) [
    | inl q ↦ rw q (q, keep-test p xs)
    | inr q ↦ rw q (keep-test p xs)
  ]

-- The choice is one of the rows.
pub best-All :
    (P : Row → Type 0) (cmp : Row → Row → Ordering) (rows : List Row) (s : Row)
    → All P rows
    → best cmp rows ≡ some s
    → P s
unfolding best
best-All P cmp [] s h e = cc
best-All P cmp (r ∷ rs) s h e = by_rest (best cmp rs) (λ t. best-All P cmp rs t h.1) e
  where
    by_rest : (o : Option Row) → ((t : Row) → o ≡ some t → P t) → better cmp r o ≡ some s → P s
    by_rest none k q = subst P (some-eq q) h.0
    by_rest (some t) k q = elim (Bool-cases (is_gt (cmp r t))) [
      | inl g ↦ subst P (some-eq (rw g at q)) (k t refl)
      | inr g ↦ subst P (some-eq (rw g at q)) h.0
    ]

pub others_differ :
    (r : Row) (rows : List Row) (id : Text)
    → IsNew r.id (column id_column rows)
    → eq_text r.id id ≡ true
    → All (λ x. eq_text x.id id ≡ false) rows
others_differ r [] id h e = tt
others_differ r (x ∷ xs) id h e = (
  ground (arith, eq_text_iff r.id id, eq_text_iff x.id id, eq_text_iff x.id r.id),
  others_differ r xs id h.1 e,
)

-- Where ids do not repeat, a row with the id is the row that the search finds.
pub find_id-only :
    (P : Row → Type 0) (id : Text) (rows : List Row) (r : Row)
    → Distinct (column id_column rows)
    → find_id id rows ≡ some r
    → P r
    → All (λ x. eq_text x.id id ≡ true → P x) rows
unfolding find?
find_id-only P id [] r d e p = tt
find_id-only P id (x ∷ xs) r d e p = elim (Bool-cases (eq_text x.id id)) [
  | inl q ↦ (λ _. subst P (sym (some-eq (rw q at e))) p, vacuous xs (others_differ x xs id d.0 q))
  | inr q ↦ (λ h. absurd (ground (arith, h, q)), find_id-only P id xs r d.1 (rw q at e) p)
]
  where
    vacuous :
        (ys : List Row)
        → All (λ y. eq_text y.id id ≡ false) ys
        → All (λ y. eq_text y.id id ≡ true → P y) ys
    vacuous [] h = tt
    vacuous (y ∷ ys) h = (λ k. absurd (ground (arith, k, h.0)), vacuous ys h.1)

differs-All :
    (t : Text) (rows : List Row)
    → IsNew t (column id_column rows)
    → All (λ y. eq_text y.id t ≡ false) rows
differs-All t [] h = tt
differs-All t (x ∷ xs) h = (h.0, differs-All t xs h.1)

-- Where ids do not repeat, any search finds the row that its id finds.
pub find_id_of_found :
    (q : Row → Bool) (rows : List Row) (r : Row)
    → Distinct (column id_column rows)
    → find? q rows ≡ some r
    → find_id r.id rows ≡ some r
unfolding find?
find_id_of_found q [] r d e = cc
find_id_of_found q (x ∷ xs) r d e = elim (Bool-cases (q x)) [
  | inl hit ↦
      subst (λ y. find_id y.id (x ∷ xs) ≡ some y) (some-eq (rw hit at e)) (rw (eq_text_refl x.id))
  | inr miss ↦
      let other =
        All-find? (λ y. eq_text y.id x.id ≡ false) q xs r (differs-All x.id xs d.0)
          (rw miss at e) in
      rw (eq_text-sym_false r.id x.id other) (find_id_of_found q xs r d.1 (rw miss at e))
]

still_found :
    (x : Row) (xs ys : List Row)
    → All (λ y. eq_text y.id x.id ≡ false) ys
    → All (λ y. find_id y.id xs ≡ some y) ys
    → All (λ y. find_id y.id (x ∷ xs) ≡ some y) ys
unfolding find?
still_found x xs [] h k = tt
still_found x xs (y ∷ ys) h k =
    (rw (eq_text-sym_false y.id x.id h.0) k.0, still_found x xs ys h.1 k.1)

-- Where ids do not repeat, each row is the one that its id finds.
pub find_id-each :
    (rows : List Row)
    → Distinct (column id_column rows)
    → All (λ y. find_id y.id rows ≡ some y) rows
unfolding find?
find_id-each [] d = tt
find_id-each (x ∷ xs) d = (
  rw (eq_text_refl x.id) refl,
  still_found x xs xs (differs-All x.id xs d.0) (find_id-each xs d.1),
)
