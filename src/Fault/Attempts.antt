-- ===== src/Fault/Attempts.antt =====
-- Which attempts of a job an injected fault fails.
use local_first_job_queue.Prelude.{
  ◌≡◌, ◌↔◌, ◌<ℤ◌, refl, ◌⊎◌, inl, inr, false, ℤ, pos, ◌+ℤ◌, leb_ℤ, ltb_ℤ, Bool-cases, arith,
}
use local_first_job_queue.Models.{Job}
use local_first_job_queue.Fault.{
  mode_error, mode_panic, Policy, Outcome, returns_nil, inject_mode, handle, recover_panic,
}

-- The policy fails a handler for some attempts.
abbrev pub IsAttemptPolicy : Policy → Type 0
IsAttemptPolicy p = (p.mode ≡ mode_error) ⊎ (p.mode ≡ mode_panic)

injects :
    (p : Policy) (n : ℤ) (inner : Outcome)
    → IsAttemptPolicy p
    → inner ≡ returns_nil
    → ((recover_panic (inject_mode p.mode p n inner) ≡ returns_nil) ↔ (p.fail_until_attempt <ℤ n))
unfolding inject_mode
injects p n inner (inl h) i =
    rw (h, i)
      (elim (Bool-cases (leb_ℤ n p.fail_until_attempt)) [
        | inl q ↦ rw q ((λ x. cc), λ x. absurd (ground (arith, q, x)))
        | inr q ↦ rw q ((λ x. ground (arith, q)), λ x. refl)
      ])
injects p n inner (inr h) i =
    rw (h, i)
      (elim (Bool-cases (leb_ℤ n p.fail_until_attempt)) [
        | inl q ↦ rw q ((λ x. cc), λ x. absurd (ground (arith, q, x)))
        | inr q ↦ rw q ((λ x. ground (arith, q)), λ x. refl)
      ])

-- Under an error or a panic policy, a handler that succeeds by itself and whose context outlives
-- the delay fails exactly on the attempts up to `fail_until_attempt`, where the first run of a job
-- is attempt one. A panic comes back as an error.
pub handle-attempts :
    (policy : Job → Policy) (inner : Job → Outcome) (j : Job)
    → IsAttemptPolicy (policy j)
    → inner j ≡ returns_nil
    → ((handle policy false inner j ≡ returns_nil)
        ↔ ((policy j).fail_until_attempt <ℤ (j.retry_count +ℤ pos 1)))
unfolding handle
handle-attempts policy inner j m i = elim (Bool-cases (ltb_ℤ (pos 0) (policy j).delay)) [
  | inl q ↦ rw q (injects (policy j) (j.retry_count +ℤ pos 1) (inner j) m i)
  | inr q ↦ rw q (injects (policy j) (j.retry_count +ℤ pos 1) (inner j) m i)
]
