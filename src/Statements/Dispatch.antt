-- ===== src/Statements/Dispatch.antt =====
-- The order in which ready jobs are leased.
use local_first_job_queue.Prelude.{
  ◌≡◌, none, some, [], Text, keep, find?, inl, inr, Option-cases, eq_text, eq_text_refl, false,
  arith,
}
use local_first_job_queue.Prelude.Predicates.{All-keep, find?-none}
use local_first_job_queue.Clock.{Time, format}
use local_first_job_queue.Store.{Env, Db}
use local_first_job_queue.Store.Rows.{update_returning}
use local_first_job_queue.Store.Claim.{claim, best, is_ready, pending_order, is_chosen}
use local_first_job_queue.Store.ClaimOrder.{best-none}
use local_first_job_queue.Store.Lookup.{best-All}
use local_first_job_queue.Statements.{claims}
use local_first_job_queue.Statements.Shape.{WellFormed}
use local_first_job_queue.Statements.Grants.{granted}

module _ (d : Db) (w : WellFormed d) (e : Env) (kind token : Text) (now until : Time) where
  -- On well-formed tables, a claim comes back with nothing only where no job of the kind is ready.
  pub claim_none :
      granted (claims e kind now until token) d ≡ none
      → keep (is_ready kind (format now)) d.jobs ≡ []
  unfolding granted claim update_returning
  claim_none g =
      elim (Option-cases
        (best (pending_order e (format now)) (keep (is_ready kind (format now)) d.jobs))) [
          | inl q ↦ best-none (pending_order e (format now)) _ q
          | inr (s, q) ↦ elim (Option-cases (find? (is_chosen (some s)) d.jobs)) [
            | inl f ↦ absurd (
                ground (
                  arith,
                  eq_text_refl s.id,
                  best-All (λ x. eq_text x.id s.id ≡ false) (pending_order e (format now)) _ s
                      (All-keep _ (is_ready kind (format now)) d.jobs
                        (find?-none (is_chosen (some s)) d.jobs f))
                      q,
                ))
            | inr (r, f) ↦ absurd (ground (arith, q, f))
          ]
        ]
