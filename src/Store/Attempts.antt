-- ===== src/Store/Attempts.antt =====
-- The attempts that the jobs of the table have left.
use local_first_job_queue.Prelude.{
  ℕ, ◌+◌, ◌-◌, ◌≡◌, refl, sym, ap, inl, inr, Bool, true, false, List, [], ◌∷◌, some, Text, eq_text,
  find?, Bool-cases, arith, some-eq, ℤ, pos_part, neg_part, if◌then◌else◌,
}
use mathlib.Core.Path.{subst}
use Prim.Native.Nat.{max}
use local_first_job_queue.Prelude.Predicates.{All, Distinct}
use local_first_job_queue.Models.{is_pending, is_leased}
use local_first_job_queue.Store.{Row}
use local_first_job_queue.Store.Rows.{update_where}
use local_first_job_queue.Store.Columns.{column, id_column}
use local_first_job_queue.Store.Lookup.{find_id, others_differ}

-- What is left of a budget of `m` after `k` attempts: a job that is open has one attempt at least.
abbrev pub budget_left : ℤ → ℤ → ℕ
budget_left m k = max 1 ((pos_part m + neg_part k) - (pos_part k + neg_part m))

-- The attempts that a job has left: none if it is neither pending nor leased.
unfoldable pub attempts_left : Row → ℕ
attempts_left r =
    if is_pending r.state
    then budget_left r.max_attempts r.retry_count
    else if is_leased r.state
    then budget_left r.max_attempts r.retry_count
    else 0

unfoldable pub all_left : List Row → ℕ
unfolding attempts_left
all_left [] = 0
all_left (r ∷ rs) = attempts_left r + all_left rs

update_where-none :
    (p : Row → Bool) (f : Row → Row) (id : Text) (rows : List Row)
    → ((x : Row) → p x ≡ true → eq_text x.id id ≡ true)
    → All (λ x. eq_text x.id id ≡ false) rows
    → update_where p f rows ≡ rows
unfolding update_where
update_where-none p f id [] only h = refl
update_where-none p f id (x ∷ xs) only h = elim (Bool-cases (p x)) [
  | inl q ↦ absurd (ground (arith, only x q, h.0))
  | inr q ↦ rw q (ap (λ ys. x ∷ ys) (update_where-none p f id xs only h.1))
]

-- An update of one job changes the attempts that are left by those of this job.
pub all_left-update_where :
    (p : Row → Bool) (f : Row → Row) (id : Text) (rows : List Row) (r : Row)
    → ((x : Row) → p x ≡ true → eq_text x.id id ≡ true)
    → Distinct (column id_column rows)
    → find_id id rows ≡ some r
    → p r ≡ true
    → all_left (update_where p f rows) + attempts_left r ≡ all_left rows + attempts_left (f r)
unfolding all_left update_where find?
all_left-update_where p f id [] r only d e t = cc
all_left-update_where p f id (x ∷ xs) r only d e t = elim (Bool-cases (eq_text x.id id)) [
  | inl q ↦
      let same = some-eq (rw q at e) in
      let rest = update_where-none p f id xs only (others_differ x xs id d.0 q) in
      subst
        (λ y.
          all_left ((if p x then f x else x) ∷ update_where p f xs) + attempts_left y
          ≡ attempts_left x + all_left xs + attempts_left (f y))
        same (rw (subst (λ y. p y ≡ true) (sym same) t, rest) (omega arith))
  | inr q ↦
      let ih = all_left-update_where p f id xs r only d.1 (rw q at e) t in
      elim (Bool-cases (p x)) [
        | inl a ↦ absurd (ground (arith, only x a, q))
        | inr a ↦ rw a (omega (arith, ih))
      ]
]
