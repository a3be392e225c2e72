-- ===== src/Prelude/Bytes.antt =====
-- Text as its bytes: the program stores and compares ids, keys, tokens and timestamps as text.
use Prim.Native.Nat.{ℕ, compare, Ordering}
use Prim.Native.Char.{code}
use Prim.Native.String.{String}
use mathlib.Core.Bool.{Bool, true, false, ◌&&◌}
use mathlib.Core.Path.{◌≡◌, refl}
use mathlib.Core.Logic.{◌≢◌, ◌↔◌}
use mathlib.Core.List.{List, [], ◌∷◌}
use native.Mathlib.Omega.{arith}
use local_first_job_queue.Prelude.Tests.{◌==◌}
use local_first_job_queue.Prelude.Order.{◌then_by◌, reversed, IsOrder}

abbrev pub Text : Type 0
Text = List ℕ

-- The bytes of an ASCII literal.
abbrev pub bytes : String → Text
bytes String.[] = []
bytes (String.◌∷◌ c s) = code c ∷ bytes s

-- SQLite's BINARY collation: byte by byte, a proper prefix first.
unfoldable pub compare_text : Text → Text → Ordering
compare_text [] [] = Ordering.eq
compare_text [] (b ∷ bs) = Ordering.lt
compare_text (a ∷ xs) [] = Ordering.gt
compare_text (a ∷ xs) (b ∷ bs) = compare a b then_by compare_text xs bs

unfoldable pub eq_text : Text → Text → Bool
eq_text [] [] = true
eq_text (a ∷ xs) (b ∷ bs) = (a == b) && eq_text xs bs
eq_text _ _ = false

pub eq_text_iff : (a b : Text) → (eq_text a b ≡ true) ↔ (a ≡ b)
unfolding eq_text
eq_text_iff [] [] = (λ h. refl, λ h. refl)
eq_text_iff [] (b ∷ bs) = ground arith
eq_text_iff (a ∷ xs) [] = ground arith
eq_text_iff (a ∷ xs) (b ∷ bs) = ground (arith, eq_text_iff xs bs)

compare_text-flips : (a b : Text) → compare_text b a ≡ reversed (compare_text a b)
unfolding compare_text
compare_text-flips [] [] = refl
compare_text-flips [] (b ∷ bs) = refl
compare_text-flips (a ∷ xs) [] = refl
compare_text-flips (a ∷ xs) (b ∷ bs) = ground (arith, compare_text-flips xs bs)

compare_text-chains :
    (a b c : Text)
    → compare_text a b ≢ Ordering.gt
    → compare_text b c ≢ Ordering.gt
    → compare_text a c ≢ Ordering.gt
unfolding compare_text
compare_text-chains [] b [] p q = λ e. cc
compare_text-chains [] b (z ∷ zs) p q = λ e. cc
compare_text-chains (x ∷ xs) [] c p q = absurd (p refl)
compare_text-chains (x ∷ xs) (y ∷ ys) [] p q = absurd (q refl)
compare_text-chains (x ∷ xs) (y ∷ ys) (z ∷ zs) p q = ground (arith, compare_text-chains xs ys zs)

pub compare_text-IsOrder : IsOrder compare_text
compare_text-IsOrder = record { flips = compare_text-flips; chains = compare_text-chains }

-- A text equal to another in the collation is that text.
pub compare_text-eq : (a b : Text) → compare_text a b ≡ Ordering.eq → a ≡ b
unfolding compare_text
compare_text-eq [] [] h = refl
compare_text-eq [] (b ∷ bs) h = cc
compare_text-eq (a ∷ xs) [] h = cc
compare_text-eq (a ∷ xs) (b ∷ bs) h = ground (arith, compare_text-eq xs bs)

pub eq_text_refl : (a : Text) → eq_text a a ≡ true
eq_text_refl a = (eq_text_iff a a).1 refl
