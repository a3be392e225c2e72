-- ===== src/Statements/Races.antt =====
-- A recovery that runs on what was read before.
use local_first_job_queue.Prelude.{
  ◌≡◌, refl, ap, inl, inr, true, false, Text, Bool-cases, some-eq, arith, leb_ℤ,
}
use local_first_job_queue.Prelude.Predicates.{find?-test}
use local_first_job_queue.Clock.{Time, format}
use local_first_job_queue.Models.{Job, is_leased}
use local_first_job_queue.Store.{Row, Db}
use local_first_job_queue.Store.Rows.{update, has_id}
use local_first_job_queue.Store.Changes.{release_row}
use local_first_job_queue.Store.Recover.{recover_row, recovered_state, next_attempt, is_leased_id}
use local_first_job_queue.Store.Lookup.{find_id-update_where}
use local_first_job_queue.Statements.{renews, recovers, run}
use local_first_job_queue.Statements.Shape.{WellFormed}
use local_first_job_queue.Statements.Exclusive.{IsHeld, run-IsHeld}

recovered_not_leased : (j : Job) → is_leased (recovered_state j) ≡ false
recovered_not_leased j = elim (Bool-cases (leb_ℤ j.max_attempts (next_attempt j))) [
  | inl q ↦ rw q refl
  | inr q ↦ rw q refl
]

-- The update of one orphan ends whatever lease its job has.
recovers-ends :
    (id token : Text) (d : Db) (now : Time) (j : Job)
    → j.id ≡ id
    → IsHeld id token d
    → ¬ IsHeld id token (run (recovers now j) d)
unfolding run recover_row update
recovers-ends id token d now j same h k =
    absurd (ground (arith, recovered_not_leased j, k.is_lease, state))
  where
    hit : is_leased_id j.id h.row ≡ true
    hit = ground (arith, find?-test (has_id id) d.jobs h.row h.found, h.is_lease, same)

    state : recovered_state j ≡ k.row.state
    state =
        ap (λ (r : Row). r.state)
          (some-eq (
            rw
              (
                find_id-update_where id (is_leased_id j.id)
                    (release_row (recovered_state j) (next_attempt j) (format now)) d.jobs
                    (λ r. refl),
                h.found,
                hit,
              )
              at k.found))

-- On well-formed tables, a recovery built from a row that was read before a renewal takes the lease
-- away from the worker that renewed it: right after the renewal the job is held under the token,
-- and after the recovery's update it is not, whatever deadline the renewal wrote.
pub stale_recovery :
    (id token : Text) (d : Db) (at until now : Time) (j : Job)
    → WellFormed d
    → IsHeld id token d
    → j.id ≡ id
    → IsHeld id token (run (renews id token at until) d)
      × (¬ IsHeld id token (run (recovers now j) (run (renews id token at until) d)))
stale_recovery id token d at until now j w h same =
    let held = run-IsHeld id token d (renews id token at until) w h refl in
    (held, recovers-ends id token (run (renews id token at until) d) now j same held)
