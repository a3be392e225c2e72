-- ===== src/Store/Columns.antt =====
-- Columns of a table without repetition: the ids, and the idempotency keys that are not NULL.
use local_first_job_queue.Prelude.{
  ◌≡◌, refl, ap, inl, inr, Bool, false, Option, none, some, List, [], ◌∷◌, ◌++◌, Text, eq_text,
  keep, Bool-cases,
}
use mathlib.Core.List.{append-nil}
use local_first_job_queue.Prelude.Predicates.{All, IsNew, Distinct, Distinct-snoc}
use local_first_job_queue.Store.{Row}
use local_first_job_queue.Store.Rows.{update_where}

abbrev pub with_text : Option Text → List Text → List Text
with_text none ts = ts
with_text (some t) ts = t ∷ ts

-- The texts that a column holds, NULLs left out.
abbrev pub column : (Row → Option Text) → List Row → List Text
column g [] = []
column g (r ∷ rs) = with_text (g r) (column g rs)

abbrev pub id_column : Row → Option Text
id_column r = some r.id

abbrev pub key_column : Row → Option Text
key_column r = r.idempotency_key

IsNew-with_text :
    (t : Text) (o : Option Text) (ts us : List Text)
    → (IsNew t ts → IsNew t us)
    → IsNew t (with_text o ts)
    → IsNew t (with_text o us)
IsNew-with_text t none ts us f h = f h
IsNew-with_text t (some u) ts us f h = (h.0, f h.1)

IsNew-dropped :
    (t : Text) (o : Option Text) (ts : List Text) → IsNew t (with_text o ts) → IsNew t ts
IsNew-dropped t none ts h = h
IsNew-dropped t (some u) ts h = h.1

Distinct-dropped : (o : Option Text) (ts : List Text) → Distinct (with_text o ts) → Distinct ts
Distinct-dropped none ts h = h
Distinct-dropped (some t) ts h = h.1

with_text-append :
    (o : Option Text) (ts us vs : List Text) → ts ≡ us ++ vs → with_text o ts ≡ with_text o us ++ vs
with_text-append none ts us vs h = h
with_text-append (some t) ts us vs h = ap (◌∷◌ t) h

module _ (g : Row → Option Text) where
  pub column-update_where :
      (p : Row → Bool) (f : Row → Row) (rows : List Row)
      → ((r : Row) → g (f r) ≡ g r)
      → column g (update_where p f rows) ≡ column g rows
  unfolding update_where
  column-update_where p f [] h = refl
  column-update_where p f (r ∷ rs) h = elim (Bool-cases (p r)) [
    | inl q ↦ rw (q, h r, column-update_where p f rs h)
    | inr q ↦ rw (q, column-update_where p f rs h)
  ]

  IsNew-keep :
      (t : Text) (p : Row → Bool) (rows : List Row)
      → IsNew t (column g rows)
      → IsNew t (column g (keep p rows))
  unfolding keep
  IsNew-keep t p [] h = tt
  IsNew-keep t p (r ∷ rs) h = elim (Bool-cases (p r)) [
    | inl q ↦ rw q (IsNew-with_text t (g r) _ _ (IsNew-keep t p rs) h)
    | inr q ↦ rw q (IsNew-keep t p rs (IsNew-dropped t (g r) _ h))
  ]

  Distinct-with_text :
      (p : Row → Bool) (o : Option Text) (rows : List Row)
      → Distinct (column g (keep p rows))
      → Distinct (with_text o (column g rows))
      → Distinct (with_text o (column g (keep p rows)))
  Distinct-with_text p none rows k h = k
  Distinct-with_text p (some t) rows k h = (IsNew-keep t p rows h.0, k)

  -- Deleting rows repeats nothing.
  pub Distinct-keep :
      (p : Row → Bool) (rows : List Row)
      → Distinct (column g rows)
      → Distinct (column g (keep p rows))
  unfolding keep
  Distinct-keep p [] h = tt
  Distinct-keep p (r ∷ rs) h =
      let rest = Distinct-keep p rs (Distinct-dropped (g r) _ h) in
      elim (Bool-cases (p r)) [
        | inl q ↦ rw q (Distinct-with_text p (g r) rs rest h)
        | inr q ↦ rw q rest
      ]

  pub column-snoc :
      (rows : List Row) (r : Row) → column g (rows ++ r ∷ []) ≡ column g rows ++ with_text (g r) []
  column-snoc [] r = refl
  column-snoc (s ∷ rows) r = with_text-append (g s) _ _ _ (column-snoc rows r)

  -- A row whose text is not there yet repeats nothing.
  pub Distinct-column-snoc :
      (rows : List Row) (r : Row)
      → Distinct (column g rows)
      → ((t : Text) → g r ≡ some t → IsNew t (column g rows))
      → Distinct (column g (rows ++ r ∷ []))
  Distinct-column-snoc rows r d fresh = rw (column-snoc rows r) (by_text (g r) fresh)
    where
      by_text :
          (o : Option Text)
          → ((t : Text) → o ≡ some t → IsNew t (column g rows))
          → Distinct (column g rows ++ with_text o [])
      by_text none f = rw (append-nil (column g rows)) d
      by_text (some t) f = Distinct-snoc (column g rows) t d (f t refl)

  -- A search that finds no row with a text shows that the column lacks it.
  pub IsNew-of_search :
      (t : Text) (p : Row → Bool) (rows : List Row)
      → ((r : Row) (u : Text) → g r ≡ some u → p r ≡ false → eq_text u t ≡ false)
      → All (λ r. p r ≡ false) rows
      → IsNew t (column g rows)
  IsNew-of_search t p [] h a = tt
  IsNew-of_search t p (r ∷ rs) h a = by_text (g r) (h r) (IsNew-of_search t p rs h a.1)
    where
      by_text :
          (o : Option Text)
          → ((u : Text) → o ≡ some u → p r ≡ false → eq_text u t ≡ false)
          → IsNew t (column g rs)
          → IsNew t (with_text o (column g rs))
      by_text none k rest = rest
      by_text (some u) k rest = (k u refl a.0, rest)
