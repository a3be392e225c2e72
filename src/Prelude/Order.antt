-- ===== src/Prelude/Order.antt =====
-- Comparison functions as `ORDER BY` uses them: laws, and their lexicographic combination.
use Prim.Native.Nat.{Ordering}
use mathlib.Core.Path.{◌≡◌}
use mathlib.Core.Logic.{◌≢◌}
use native.Mathlib.Omega.{arith}

abbrev pub reversed : Ordering → Ordering
reversed Ordering.lt = Ordering.gt
reversed Ordering.eq = Ordering.eq
reversed Ordering.gt = Ordering.lt

-- The second comparison decides where the first finds no difference.
infixr 40 ◌then_by◌
abbrev pub ◌then_by◌ : Ordering → Ordering → Ordering
Ordering.lt then_by o = Ordering.lt
Ordering.eq then_by o = o
Ordering.gt then_by o = Ordering.gt

pub record IsOrder {ℓ} {A : Type ℓ} (cmp : A → A → Ordering) : Type ℓ where
  pub flips : (a b : A) → cmp b a ≡ reversed (cmp a b)
  pub chains : (a b c : A) → cmp a b ≢ Ordering.gt → cmp b c ≢ Ordering.gt → cmp a c ≢ Ordering.gt

-- Sorting by a key, descending, and by two comparisons in turn, keeps the laws.
module _ {ℓ} {A : Type ℓ} where
  pub on-IsOrder {κ} :
      {K : Type κ} {cmp : K → K → Ordering} (key : A → K)
      → IsOrder cmp
      → IsOrder {A = A} (λ a b. cmp (key a) (key b))
  on-IsOrder key o = record {
    flips = λ a b. o.flips (key a) (key b);
    chains = λ a b c. o.chains (key a) (key b) (key c);
  }

  pub descending-IsOrder : {cmp : A → A → Ordering} → IsOrder cmp → IsOrder {A = A} (λ a b. cmp b a)
  descending-IsOrder o = record {
    flips = λ a b. o.flips b a;
    chains = λ a b c p q. o.chains c b a q p;
  }

  pub then_by-IsOrder :
      {c d : A → A → Ordering}
      → IsOrder c
      → IsOrder d
      → IsOrder {A = A} (λ x y. c x y then_by d x y)
  then_by-IsOrder {c} {d} o q = record {
    flips = λ x y. ground (arith, o.flips x y, q.flips x y);
    chains = λ x y z p r. ground (
      arith,
      o.chains x y z,
      o.chains y z x,
      o.chains z x y,
      o.flips x y,
      o.flips y z,
      o.flips x z,
      q.chains x y z,
    );
  }
