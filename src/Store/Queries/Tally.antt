-- ===== src/Store/Queries/Tally.antt =====
-- How many rows are in a state, as a relation that tells equal states from different ones.
use local_first_job_queue.Prelude.{
  ℕ, suc, ◌≡◌, ◌≢◌, ap, eq_text_refl, inl, inr, true, false, List, [], ◌∷◌, count, arith,
  eq_text_iff, Bool-cases,
}
use mathlib.Core.Path.{subst}
use local_first_job_queue.Models.{JobState, other_state}
use local_first_job_queue.Store.{Row}
use local_first_job_queue.Store.Queries.{eq_state}

pub data Tally : JobState → List Row → ℕ → Type 0 where
  no_row : {s : JobState} → Tally s [] 0
  in_state :
      {s : JobState} {r : Row} {rows : List Row} {n : ℕ}
      → r.state ≡ s
      → Tally s rows n
      → Tally s (r ∷ rows) (suc n)
  in_other_state :
      {s : JobState} {r : Row} {rows : List Row} {n : ℕ}
      → r.state ≢ s
      → Tally s rows n
      → Tally s (r ∷ rows) n

eq_state_sound : (a b : JobState) → eq_state a b ≡ true → a ≡ b
eq_state_sound (other_state a) (other_state b) q = ap other_state ((eq_text_iff a b).0 q)
eq_state_sound a b q = ground (arith, q)

eq_state_refl : (a : JobState) → eq_state a a ≡ true
eq_state_refl (other_state a) = eq_text_refl a
eq_state_refl a = ground arith

eq_state-false : (a b : JobState) → eq_state a b ≡ false → a ≢ b
eq_state-false a b q e = cc (q, ap (eq_state a) e, eq_state_refl a)

pub count-Tally :
    (s : JobState) (rows : List Row) → Tally s rows (count (λ r. eq_state r.state s) rows)
unfolding count
count-Tally s [] = no_row
count-Tally s (r ∷ rows) = elim (Bool-cases (eq_state r.state s)) [
  | inl q ↦
      subst (Tally s (r ∷ rows)) (ground (arith, q))
        (in_state (eq_state_sound r.state s q) (count-Tally s rows))
  | inr q ↦
      subst (Tally s (r ∷ rows)) (ground (arith, q))
        (in_other_state (eq_state-false r.state s q) (count-Tally s rows))
]
