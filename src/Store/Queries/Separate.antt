-- ===== src/Store/Queries/Separate.antt =====
-- Rows with different ids, which a sort leaves different.
use local_first_job_queue.Prelude.{
  ◌≢◌, sym, inl, inr, Text, eq_text_iff, List, [], ◌∷◌, arith, Bool-cases, Ordering,
}
use local_first_job_queue.Prelude.Predicates.{All, Distinct, IsNew}
use local_first_job_queue.Clock.{is_gt}
use local_first_job_queue.Store.{Row}
use local_first_job_queue.Store.Columns.{column, id_column}
use local_first_job_queue.Store.Queries.{sort_by, insert_by}

-- No row has the id.
abbrev pub Strange : Text → List Row → Type 0
Strange t rows = All (λ (r : Row). t ≢ r.id) rows

-- The rows have different ids.
abbrev pub Separate : List Row → Type 0
Separate [] = Unit
Separate (r ∷ rs) = Strange r.id rs × Separate rs

Strange-of : (t : Text) (rows : List Row) → IsNew t (column id_column rows) → Strange t rows
Strange-of t [] h = tt
Strange-of t (r ∷ rs) h = ((λ q. ground (arith, eq_text_iff r.id t, h.0)), Strange-of t rs h.1)

pub Separate-of : (rows : List Row) → Distinct (column id_column rows) → Separate rows
Separate-of [] h = tt
Separate-of (r ∷ rs) h = (Strange-of r.id rs h.0, Separate-of rs h.1)

Strange-insert :
    (cmp : Row → Row → Ordering) (t : Text) (r : Row) (rows : List Row)
    → t ≢ r.id
    → Strange t rows
    → Strange t (insert_by cmp r rows)
unfolding insert_by
Strange-insert cmp t r [] n h = (n, tt)
Strange-insert cmp t r (s ∷ ss) n h = elim (Bool-cases (is_gt (cmp r s))) [
  | inl q ↦ rw q (h.0, Strange-insert cmp t r ss n h.1)
  | inr q ↦ rw q (n, h)
]

Separate-insert :
    (cmp : Row → Row → Ordering) (r : Row) (rows : List Row)
    → Strange r.id rows
    → Separate rows
    → Separate (insert_by cmp r rows)
unfolding insert_by
Separate-insert cmp r [] n h = (tt, tt)
Separate-insert cmp r (s ∷ ss) n h = elim (Bool-cases (is_gt (cmp r s))) [
  | inl q ↦
      rw q (Strange-insert cmp s.id r ss (λ e. n.0 (sym e)) h.0, Separate-insert cmp r ss n.1 h.1)
  | inr q ↦ rw q (n, h)
]

Strange-sort :
    (cmp : Row → Row → Ordering) (t : Text) (rows : List Row)
    → Strange t rows
    → Strange t (sort_by cmp rows)
unfolding sort_by
Strange-sort cmp t [] h = tt
Strange-sort cmp t (r ∷ rs) h =
    Strange-insert cmp t r (sort_by cmp rs) h.0 (Strange-sort cmp t rs h.1)

pub Separate-sort_by :
    (cmp : Row → Row → Ordering) (rows : List Row) → Separate rows → Separate (sort_by cmp rows)
unfolding sort_by
Separate-sort_by cmp [] h = tt
Separate-sort_by cmp (r ∷ rs) h =
    Separate-insert cmp r (sort_by cmp rs) (Strange-sort cmp r.id rs h.0)
      (Separate-sort_by cmp rs h.1)
