-- ===== src/Store/ClaimOrder.antt =====
-- Which of the ready jobs a claim takes.
use local_first_job_queue.Prelude.{
  ◌≡◌, ◌≢◌, refl, sym, inl, inr, Bool, true, false, Ordering, Option, none, some, List, [], ◌∷◌,
  Bool-cases, some-eq, arith, pos, compare_ℤ, leb_ℤ, compare_text-IsOrder, if◌then◌else◌, subst,
}
use local_first_job_queue.Prelude.Order.{IsOrder, on-IsOrder, descending-IsOrder, then_by-IsOrder}
use local_first_job_queue.Prelude.Predicates.{All}
use local_first_job_queue.Clock.{Stamp, is_gt}
use local_first_job_queue.Clock.TextOrder.{compare_stamp-IsOrder}
use local_first_job_queue.Store.{Row, Env}
use local_first_job_queue.Store.Claim.{
  ready_at, plain_order, aged_priority, pending_order, better, best,
}

compare_ℤ-IsOrder : IsOrder compare_ℤ
compare_ℤ-IsOrder = record { flips = λ a b. ground arith; chains = λ a b c p q. ground arith }

plain_order-IsOrder : IsOrder plain_order
unfolding plain_order
plain_order-IsOrder =
    then_by-IsOrder (descending-IsOrder (on-IsOrder (λ (r : Row). r.priority) compare_ℤ-IsOrder)) (
      then_by-IsOrder (on-IsOrder ready_at compare_stamp-IsOrder) (
        then_by-IsOrder (on-IsOrder (λ (r : Row). r.created_at) compare_stamp-IsOrder)
          (on-IsOrder (λ (r : Row). r.id) compare_text-IsOrder)))

if-IsOrder :
    {c d : Row → Row → Ordering} (b : Bool)
    → IsOrder c
    → IsOrder d
    → IsOrder {A = Row} (λ x y. if b then c x y else d x y)
if-IsOrder true o q = o
if-IsOrder false o q = q

pub pending_order-IsOrder : (e : Env) (now : Stamp) → IsOrder (pending_order e now)
unfolding pending_order
pending_order-IsOrder e now = if-IsOrder (leb_ℤ e.aging_interval (pos 0)) plain_order-IsOrder (
    then_by-IsOrder (descending-IsOrder (on-IsOrder (aged_priority e now) compare_ℤ-IsOrder))
      plain_order-IsOrder)

better-ne-none : (cmp : Row → Row → Ordering) (r : Row) (b : Option Row) → better cmp r b ≢ none
unfolding better
better-ne-none cmp r b = λ h. ground arith

pub best-none : (cmp : Row → Row → Ordering) (rows : List Row) → best cmp rows ≡ none → rows ≡ []
unfolding best
best-none cmp [] h = refl
best-none cmp (r ∷ rs) h = absurd (better-ne-none cmp r (best cmp rs) h)

module _ (cmp : Row → Row → Ordering) (o : IsOrder cmp) where
  All-after :
      (s t : Row) (rows : List Row)
      → cmp s t ≢ Ordering.gt
      → All (λ r. cmp t r ≢ Ordering.gt) rows
      → All (λ r. cmp s r ≢ Ordering.gt) rows
  All-after s t [] h a = tt
  All-after s t (r ∷ rs) h a = (o.chains s t r h a.0, All-after s t rs h a.1)

  itself : (r : Row) → cmp r r ≢ Ordering.gt
  itself r = ground (arith, o.flips r r)

  -- No row comes before the one that `ORDER BY .. LIMIT 1` returns.
  pub best-first :
      (rows : List Row) (s : Row) → best cmp rows ≡ some s → All (λ r. cmp s r ≢ Ordering.gt) rows
  unfolding best
  best-first [] s e = tt
  best-first (r ∷ rs) s e = by_rest (best cmp rs) (λ t. best-first rs t) (best-none cmp rs) e
    where
      by_rest :
          (b : Option Row)
          → ((t : Row) → b ≡ some t → All (λ x. cmp t x ≢ Ordering.gt) rs)
          → (b ≡ none → rs ≡ [])
          → better cmp r b ≡ some s
          → (cmp s r ≢ Ordering.gt) × All (λ x. cmp s x ≢ Ordering.gt) rs
      by_rest none k n q =
          subst (λ y. (cmp y r ≢ Ordering.gt) × All (λ x. cmp y x ≢ Ordering.gt) rs) (some-eq q)
            (itself r, subst (All (λ x. cmp r x ≢ Ordering.gt)) (sym (n refl)) tt)
      by_rest (some t) k n q = elim (Bool-cases (is_gt (cmp r t))) [
        | inl g ↦
            subst (λ y. (cmp y r ≢ Ordering.gt) × All (λ x. cmp y x ≢ Ordering.gt) rs)
              (some-eq (rw g at q)) (ground (arith, o.flips r t), k t refl)
        | inr g ↦
            subst (λ y. (cmp y r ≢ Ordering.gt) × All (λ x. cmp y x ≢ Ordering.gt) rs)
              (some-eq (rw g at q)) (itself r, All-after r t rs (ground arith) (k t refl))
      ]
