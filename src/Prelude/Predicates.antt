-- ===== src/Prelude/Predicates.antt =====
-- Predicates on lists by recursion, and lists without repetition.
use mathlib.Core.Bool.{Bool, true, false}
use mathlib.Core.Path.{◌≡◌}
use mathlib.Core.Logic.{inl, inr}
use mathlib.Core.List.{List, [], ◌∷◌, ◌++◌}
use mathlib.Core.Option.{none, some}
use native.Mathlib.Omega.{arith}
use local_first_job_queue.Prelude.Tests.{Bool-cases}
use local_first_job_queue.Prelude.Lists.{keep, find?}
use local_first_job_queue.Prelude.Bytes.{Text, eq_text, eq_text_iff}

abbrev pub All {ℓ κ} : {A : Type ℓ} → (A → Type κ) → List A → Type κ
All P [] = Unit
All P (x ∷ xs) = P x × All P xs

module _ {ℓ κ} {A : Type ℓ} (P : A → Type κ) where
  pub All-snoc : (xs : List A) (x : A) → All P xs → P x → All P (xs ++ x ∷ [])
  All-snoc [] x h p = (p, tt)
  All-snoc (y ∷ ys) x h p = (h.0, All-snoc ys x h.1 p)

  pub All-keep : (p : A → Bool) (xs : List A) → All P xs → All P (keep p xs)
  unfolding keep
  All-keep p [] h = tt
  All-keep p (x ∷ xs) h = elim (Bool-cases (p x)) [
    | inl q ↦ rw q (h.0, All-keep p xs h.1)
    | inr q ↦ rw q (All-keep p xs h.1)
  ]

  -- What a search finds has the property, and passes the test.
  pub All-find? : (p : A → Bool) (xs : List A) (x : A) → All P xs → find? p xs ≡ some x → P x
  unfolding find?
  All-find? p [] x h e = cc
  All-find? p (y ∷ ys) x h e = elim (Bool-cases (p y)) [
    | inl q ↦ ground (arith, h.0, q)
    | inr q ↦ All-find? p ys x h.1 (ground arith)
  ]

module _ {ℓ} {A : Type ℓ} where
  pub find?-none : (p : A → Bool) (xs : List A) → find? p xs ≡ none → All (λ x. p x ≡ false) xs
  unfolding find?
  find?-none p [] e = tt
  find?-none p (y ∷ ys) e = elim (Bool-cases (p y)) [
    | inl q ↦ ground arith
    | inr q ↦ (q, find?-none p ys (ground arith))
  ]

  pub find?-test : (p : A → Bool) (xs : List A) (x : A) → find? p xs ≡ some x → p x ≡ true
  unfolding find?
  find?-test p [] x e = cc
  find?-test p (y ∷ ys) x e = elim (Bool-cases (p y)) [
    | inl q ↦ ground arith
    | inr q ↦ find?-test p ys x (ground arith)
  ]

abbrev pub IsNew : Text → List Text → Type 0
IsNew t = All (λ u. eq_text u t ≡ false)

abbrev pub Distinct : List Text → Type 0
Distinct [] = Unit
Distinct (t ∷ ts) = IsNew t ts × Distinct ts

pub eq_text-sym_false : (a b : Text) → eq_text a b ≡ false → eq_text b a ≡ false
eq_text-sym_false a b h = ground (arith, eq_text_iff a b, eq_text_iff b a)

pub Distinct-snoc : (ts : List Text) (t : Text) → Distinct ts → IsNew t ts → Distinct (ts ++ t ∷ [])
Distinct-snoc [] t d n = (tt, tt)
Distinct-snoc (u ∷ us) t d n = (
  All-snoc (λ v. eq_text v u ≡ false) us t d.0 (eq_text-sym_false u t n.0),
  Distinct-snoc us t d.1 n.1,
)
