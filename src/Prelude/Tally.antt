-- ===== src/Prelude/Tally.antt =====
-- `SELECT key, COUNT(*) .. GROUP BY key ORDER BY key`: the groups of a list, sorted by their keys.
use Prim.Native.Nat.{ℕ, suc, ◌+◌, Ordering}
use mathlib.Core.Path.{◌≡◌, refl}
use mathlib.Core.Logic.{◌≢◌, ◌⊎◌, inl, inr}
use mathlib.Core.Bool.{Bool, true, false}
use mathlib.Core.List.{List, [], ◌∷◌}
use native.Mathlib.Omega.{arith}
use local_first_job_queue.Prelude.Tests.{if◌then◌else◌}
use local_first_job_queue.Prelude.Lists.{length, count}
use local_first_job_queue.Prelude.Order.{IsOrder}

abbrev pub is_eq : Ordering → Bool
is_eq Ordering.eq = true
is_eq _ = false

Ordering-cases : (c : Ordering) → (c ≡ Ordering.lt) ⊎ ((c ≡ Ordering.eq) ⊎ (c ≡ Ordering.gt))
Ordering-cases Ordering.lt = inl refl
Ordering-cases Ordering.eq = inr (inl refl)
Ordering-cases Ordering.gt = inr (inr refl)

module _ {ℓ} {K : Type ℓ} (cmp : K → K → Ordering) where
  -- One key more.
  pub tally : K → List (K × ℕ) → List (K × ℕ)
  tally k [] = (k, 1) ∷ []
  tally k ((x, n) ∷ rest) =
      let more = tally k rest in
      elim (cmp k x) [
        | Ordering.lt ↦ (k, 1) ∷ (x, n) ∷ rest
        | Ordering.eq ↦ (x, suc n) ∷ rest
        | Ordering.gt ↦ (x, n) ∷ more
      ]

  tally_nil : (k : K) → tally k [] ≡ (k, 1) ∷ []
  unfolding tally
  tally_nil k = refl

  module _ (k x : K) (n : ℕ) (rest : List (K × ℕ)) where
    tally_lt : cmp k x ≡ Ordering.lt → tally k ((x, n) ∷ rest) ≡ (k, 1) ∷ (x, n) ∷ rest
    unfolding tally
    tally_lt h = ground arith

    tally_eq : cmp k x ≡ Ordering.eq → tally k ((x, n) ∷ rest) ≡ (x, suc n) ∷ rest
    unfolding tally
    tally_eq h = ground arith

    tally_gt : cmp k x ≡ Ordering.gt → tally k ((x, n) ∷ rest) ≡ (x, n) ∷ tally k rest
    unfolding tally
    tally_gt h = ground arith

  unfoldable pub groups : List K → List (K × ℕ)
  unfolding tally
  groups [] = []
  groups (k ∷ ks) = tally k (groups ks)

  unfoldable pub sum_groups : List (K × ℕ) → ℕ
  sum_groups [] = 0
  sum_groups ((k, n) ∷ rest) = n + sum_groups rest

  -- The number that stands with a key, or 0.
  unfoldable pub group_of : K → List (K × ℕ) → ℕ
  group_of k [] = 0
  group_of k ((x, n) ∷ rest) = let more = group_of k rest in if is_eq (cmp k x) then n else more

  tally-sum : (k : K) (gs : List (K × ℕ)) → sum_groups (tally k gs) ≡ suc (sum_groups gs)
  unfolding tally sum_groups
  tally-sum k [] = omega arith
  tally-sum k ((x, n) ∷ rest) = ground (arith, tally-sum k rest)

  pub groups-sum : (ks : List K) → sum_groups (groups ks) ≡ length ks
  unfolding groups sum_groups
  groups-sum [] = refl
  groups-sum (k ∷ ks) = omega (arith, tally-sum k (groups ks), groups-sum ks)

  module _ (o : IsOrder cmp) where
    -- Above a key that is larger than `k` there is no group of `k`.
    abbrev AllAbove : K → List (K × ℕ) → Type 0
    AllAbove k [] = Unit
    AllAbove k ((x, n) ∷ rest) = (cmp k x ≡ Ordering.lt) × AllAbove k rest

    abbrev Increasing : List (K × ℕ) → Type 0
    Increasing [] = Unit
    Increasing ((x, n) ∷ rest) = AllAbove x rest × Increasing rest

    AllAbove-lower :
        (k x : K) (gs : List (K × ℕ)) → cmp k x ≡ Ordering.lt → AllAbove x gs → AllAbove k gs
    AllAbove-lower k x [] h a = tt
    AllAbove-lower k x ((y, n) ∷ rest) h a = (
      ground (arith, o.chains k x y, o.chains y k x, o.flips k x, o.flips x y, o.flips k y, a.0),
      AllAbove-lower k x rest h a.1,
    )

    tally-AllAbove :
        (j k : K) (gs : List (K × ℕ))
        → cmp j k ≡ Ordering.lt
        → AllAbove j gs
        → AllAbove j (tally k gs)
    unfolding tally
    tally-AllAbove j k [] h a = (h, tt)
    tally-AllAbove j k ((x, n) ∷ rest) h a = ground (arith, tally-AllAbove j k rest)

    tally-Increasing : (k : K) (gs : List (K × ℕ)) → Increasing gs → Increasing (tally k gs)
    tally-Increasing k [] i = rw (tally_nil k) (tt, tt)
    tally-Increasing k ((x, n) ∷ rest) i = elim (Ordering-cases (cmp k x)) [
      | inl below ↦ rw (tally_lt k x n rest below) ((below, AllAbove-lower k x rest below i.0), i)
      | inr (inl same) ↦ rw (tally_eq k x n rest same) i
      | inr (inr above) ↦
          rw (tally_gt k x n rest above) (
            tally-AllAbove x k rest (rw (o.flips k x, above) refl) i.0,
            tally-Increasing k rest i.1,
          )
    ]

    pub groups-Increasing : (ks : List K) → Increasing (groups ks)
    unfolding groups
    groups-Increasing [] = tt
    groups-Increasing (k ∷ ks) = tally-Increasing k (groups ks) (groups-Increasing ks)

    none_above :
        (j k : K) (gs : List (K × ℕ)) → cmp j k ≢ Ordering.gt → AllAbove k gs → group_of j gs ≡ 0
    unfolding group_of
    none_above j k [] h a = refl
    none_above j k ((x, n) ∷ rest) h a = ground (
      arith,
      none_above j k rest h a.1,
      o.chains k j x,
      o.chains x j k,
      o.flips k x,
      o.flips j k,
      o.flips j x,
    )

    group_of-tally :
        (j k : K) (gs : List (K × ℕ))
        → Increasing gs
        → group_of j (tally k gs) ≡ (if is_eq (cmp j k) then 1 else 0) + group_of j gs
    unfolding group_of
    group_of-tally j k [] i = rw (tally_nil k) (omega arith)
    group_of-tally j k ((x, n) ∷ rest) i = elim (Ordering-cases (cmp k x)) [
      | inl below ↦ rw (tally_lt k x n rest below) (
          ground (
            arith,
            none_above j x rest,
            o.chains j k x,
            o.chains x j k,
            o.flips j x,
            o.flips k x,
            o.flips j k,
            none_above j k ((x, n) ∷ rest),
          ))
      | inr (inl same) ↦ rw (tally_eq k x n rest same) (
          ground (
            arith,
            o.chains j k x,
            o.chains x k j,
            o.chains k x j,
            o.chains j x k,
            o.flips j x,
            o.flips k x,
            o.flips j k,
            none_above j x rest,
          ))
      | inr (inr above) ↦ rw (tally_gt k x n rest above) (
          ground (
            arith,
            group_of-tally j k rest i.1,
            o.chains j k x,
            o.chains x j k,
            o.chains k j x,
            o.flips j x,
            o.flips k x,
            o.flips j k,
            none_above j x rest,
          ))
    ]

    -- The groups have each key once, with the number of elements that compare equal to it.
    pub group_of-groups :
        (j : K) (ks : List K) → group_of j (groups ks) ≡ count (λ k. is_eq (cmp j k)) ks
    unfolding groups group_of count
    group_of-groups j [] = refl
    group_of-groups j (k ∷ ks) =
        omega (arith, group_of-tally j k (groups ks) (groups-Increasing ks), group_of-groups j ks)
