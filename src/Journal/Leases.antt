-- ===== src/Journal/Leases.antt =====
-- A lease keeps the log of each job in step with its row.
use local_first_job_queue.Prelude.{
  ◌≡◌, refl, sym, subst, inl, inr, true, none, Text, eq_text_refl, arith, Option-cases, suc,
}
use local_first_job_queue.Clock.{Duration}
use local_first_job_queue.Models.{pending, leased, leased_event, is_pending}
use local_first_job_queue.Store.{Row, World, Env, time_now, new_text, ◌>>=◌}
use local_first_job_queue.Store.Rows.{has_id}
use local_first_job_queue.Store.Claim.{is_ready, lease_job}
use local_first_job_queue.Store.Insert.{insert_event}
use local_first_job_queue.Queue.{lease}
use local_first_job_queue.Queue.Leasing.{Leases, FindsNothing, lease_lem, leased_row}
use local_first_job_queue.Journal.{Allowed, leased_event-Allowed, HasBudget}
use local_first_job_queue.Journal.Outcomes.{
  IsRegular, IsKept, IsJournal, stamped-Journal, unchanged-Journal,
}

leased_row-HasBudget :
    (e : Env) (kind : Text) (duration : Duration) (token : Text) (w : World) (r : Row)
    → r.state ≡ pending
    → HasBudget r
    → HasBudget (leased_row e kind duration token w r)
leased_row-HasBudget e kind duration token w r s c = record {
  budget = c.budget;
  retries = c.retries;
  within = c.within;
  attempt_left = λ _. c.attempt_left (rw s);
}

pending_lem : (kind : Text) (r : Row) → is_pending r.state ≡ true → pending ≡ r.state
pending_lem kind r h = ground arith

module _ (e : Env) (regular : IsRegular e) (w : World) (kept : IsKept e w) (kind : Text)
    (duration : Duration) where
  leases_row :
      (token : Text) → Leases e kind duration token w → IsJournal e (lease e kind duration w).1
  unfolding insert_event is_ready
  leases_row token l =
      let state = pending_lem kind l.row (ground (arith, l.ready)) in
      rw l.runs (
        stamped-Journal e regular w kept l.row.id (has_id l.row.id)
          (leased_row e kind duration token w) l.row leased_event none w.ticks
          (suc (suc (suc w.ticks))) _ l.found (eq_text_refl l.row.id) (λ x y. y) (λ x. refl) refl
          refl (leased_row-HasBudget e kind duration token w l.row (sym state))
          (subst (λ s. Allowed s leased_event leased) state leased_event-Allowed) (omega arith))

  pub lease-Journal : IsJournal e (lease e kind duration w).1
  unfolding lease lease_job ◌>>=◌ time_now new_text
  lease-Journal = elim (Option-cases (e.random (suc w.ticks))) [
    | inl q ↦ rw q (unchanged-Journal e regular w kept _ (omega arith))
    | inr (token, q) ↦
        elim (lease_lem e kind duration token w regular.quiet kept.well kept.reads q) [
          | inl l ↦ nothing token l
          | inr l ↦ leases_row token l
        ]
  ]
    where
      nothing :
          (token : Text)
          → FindsNothing e kind duration token w
          → IsJournal e (lease e kind duration w).1
      nothing token l = rw l.runs (unchanged-Journal e regular w kept _ (omega arith))
