-- ===== src/Statements/Grants.antt =====
-- What a claim takes, and that two claims never hold one job at a time.
use local_first_job_queue.Prelude.{
  ◌≡◌, ◌≢◌, refl, sym, ◌∙◌, inl, inr, Bool, true, false, Option, none, some, List, [], ◌∷◌, Text,
  eq_text, keep, find?, Option-cases, some-eq, eq_text_refl, arith,
}
use mathlib.Core.Path.{subst}
use local_first_job_queue.Clock.{Time, Stamp, format}
use local_first_job_queue.Prelude.Predicates.{All, All-keep, find?-test}
use local_first_job_queue.Models.{is_pending}
use local_first_job_queue.Store.{Row, Db, Env, Result, ok}
use local_first_job_queue.Store.Rows.{update_where, update_returning, has_id, set_jobs}
use local_first_job_queue.Store.Claim.{
  claim, best, is_ready, pending_order, is_chosen, lease_row, is_pending_id,
}
use local_first_job_queue.Store.Lookup.{
  find_id, find_id-update_where, keep-test, best-All, find_id-only, find_id_of_found,
}
use local_first_job_queue.Statements.{Statement, claims, claims_id, run, run_all}
use local_first_job_queue.Statements.Shape.{WellFormed, run-WellFormed}
use local_first_job_queue.Statements.Exclusive.{IsHeld, releases, run-IsHeld}

granted_row : Result (Option Row) → Option Text
granted_row (ok (some r)) = some r.id
granted_row _ = none

-- The id of the job that a claim hands to its sender.
unfoldable pub granted : Statement → Db → Option Text
unfolding granted_row claim update_returning
granted (claims e kind now until token) d =
    granted_row (claim e kind (format now) (format until) token d).0
granted (claims_id id now until token) d =
    granted_row
      (update_returning (is_pending_id id) (lease_row (format now) (format until) token) d).0
granted _ d = none

-- The token that a claim writes.
abbrev pub shown_token : Statement → Text
shown_token (claims e kind now until token) = token
shown_token (claims_id id now until token) = token
shown_token _ = []

-- A statement takes a pending job, and leaves it held under the statement's token.
pub record Takes (id : Text) (s : Statement) (d : Db) : Type 0 where
  pub row : Row
  pub found : find_id id d.jobs ≡ some row
  pub was_pending : is_pending row.state ≡ true
  pub held : IsHeld id (shown_token s) (run s d)

returned_row :
    (p : Row → Bool) (f : Row → Row) (d : Db) (id : Text)
    → granted_row (update_returning p f d).0 ≡ some id
    → (r : Row) × (find? p d.jobs ≡ some r) × ((f r).id ≡ id)
unfolding granted_row update_returning
returned_row p f d id g = elim (Option-cases (find? p d.jobs)) [
  | inl q ↦ cc (rw q at g)
  | inr (r, q) ↦ (r, q, some-eq (rw q at g))
]

abbrev claimed : (Row → Bool) → Stamp → Stamp → Text → Db → Db
claimed p now until token d = set_jobs d (update_where p (lease_row now until token) d.jobs)

module _ (d : Db) (w : WellFormed d) where
  -- The row that `update_returning` leased, where it is the one row with its id.
  leased-IsHeld :
      (p : Row → Bool) (now until : Stamp) (token : Text) (r : Row)
      → find? p d.jobs ≡ some r
      → IsHeld r.id token (claimed p now until token d)
  leased-IsHeld p now until token r q = record {
    row = lease_row now until token r;
    found =
        rw
          (
            find_id-update_where r.id p (lease_row now until token) d.jobs (λ x. refl),
            find_id_of_found p d.jobs r w.ids q,
          )
          (ground (arith, find?-test p d.jobs r q));
    is_lease = refl;
    owner = refl;
  }

  -- The row with the id of the chosen one is the chosen one, which is ready.
  pub chosen_same :
      (e : Env) (kind : Text) (now : Stamp) (s r : Row)
      → best (pending_order e now) (keep (is_ready kind now) d.jobs) ≡ some s
      → find? (has_id s.id) d.jobs ≡ some r
      → (s ≡ r) × (is_ready kind now r ≡ true)
  chosen_same e kind now s r q f = (same, subst (λ x. is_ready kind now x ≡ true) same ready)
    where
      same : s ≡ r
      same =
          best-All (λ x. eq_text x.id s.id ≡ true → x ≡ r) (pending_order e now) _ s
            (All-keep _ (is_ready kind now) d.jobs
              (find_id-only (λ x. x ≡ r) s.id d.jobs r w.ids f refl))
            q (eq_text_refl s.id)

      ready : is_ready kind now s ≡ true
      ready =
          best-All (λ x. is_ready kind now x ≡ true) (pending_order e now) _ s
            (keep-test (is_ready kind now) d.jobs) q

  -- What a granted claim found: the choice, which was ready.
  pub granted_claim :
      (e : Env) (kind token : Text) (now until : Time) (id : Text)
      → granted (claims e kind now until token) d ≡ some id
      → (r : Row) × (best (pending_order e (format now)) (keep (is_ready kind (format now)) d.jobs)
          ≡ some r)
        × (find_id id d.jobs ≡ some r)
        × (is_ready kind (format now) r ≡ true)
        × (r.id ≡ id)
        × (find? (is_chosen (some r)) d.jobs ≡ some r)
  unfolding granted claim update_returning
  granted_claim e kind token now until id g =
      elim (Option-cases
        (best (pending_order e (format now)) (keep (is_ready kind (format now)) d.jobs))) [
          | inl q ↦
              let (r, f, same) =
                returned_row (is_chosen none) (lease_row (format now) (format until) token) d id
                  (rw q at g) in
              absurd (ground (arith, find?-test (is_chosen none) d.jobs r f))
          | inr (s, q) ↦
              let (r, f, same) =
                returned_row (is_chosen (some s)) (lease_row (format now) (format until) token) d id
                  (rw q at g) in
              let (one, ready) = chosen_same e kind (format now) s r q f in
              (
                r,
                subst
                    (λ x.
                      best (pending_order e (format now)) (keep (is_ready kind (format now)) d.jobs)
                      ≡ some x)
                    one q,
                subst (λ i. find_id i d.jobs ≡ some r) same (find_id_of_found _ d.jobs r w.ids f),
                ready,
                same,
                subst (λ x. find? (is_chosen (some x)) d.jobs ≡ some r) one f,
              )
        ]

  claim-Takes :
      (e : Env) (kind token : Text) (now until : Time) (id : Text)
      → granted (claims e kind now until token) d ≡ some id
      → Takes id (claims e kind now until token) d
  unfolding run claim update_returning is_ready
  claim-Takes e kind token now until id g =
      let (r, q, found, ready, same, f) = granted_claim e kind token now until id g in
      record {
        row = r;
        found = found;
        was_pending = ground (arith, ready);
        held = rw q (
            subst
              (λ i.
                IsHeld i token (claimed (is_chosen (some r)) (format now) (format until) token d))
              same (leased-IsHeld _ (format now) (format until) token r f));
      }

  claim_id-Takes :
      (id' token : Text) (now until : Time) (id : Text)
      → granted (claims_id id' now until token) d ≡ some id
      → Takes id (claims_id id' now until token) d
  unfolding granted run update_returning
  claim_id-Takes id' token now until id g =
      let (r, f, same) =
        returned_row (is_pending_id id') (lease_row (format now) (format until) token) d id g in
      record {
        row = r;
        found = subst (λ i. find_id i d.jobs ≡ some r) same (find_id_of_found _ d.jobs r w.ids f);
        was_pending = ground (arith, find?-test (is_pending_id id') d.jobs r f);
        held =
            subst
              (λ i.
                IsHeld i token (claimed (is_pending_id id') (format now) (format until) token d))
              same (leased-IsHeld _ (format now) (format until) token r f);
      }

  -- Whatever a claim hands out was pending, and is held under the claim's token afterwards.
  pub granted-Takes : (s : Statement) (id : Text) → granted s d ≡ some id → Takes id s d
  unfolding granted
  granted-Takes (claims e kind now until token) id g = claim-Takes e kind token now until id g
  granted-Takes (claims_id id' now until token) id g = claim_id-Takes id' token now until id g
  granted-Takes _ id g = cc

  -- A held job is granted to nobody.
  pub granted-ne-held :
      (s : Statement) (id token : Text) → IsHeld id token d → granted s d ≢ some id
  granted-ne-held s id token h g = clash (granted-Takes s id g)
    where
      clash : Takes id s d → ⊥
      clash t = ground (arith, t.was_pending, h.is_lease, some-eq (sym t.found ∙ h.found))

-- The ids that the claims of a schedule hand out, in order.
unfoldable pub all_granted : List Statement → Db → List (Option Text)
all_granted [] d = []
all_granted (s ∷ ss) d = granted s d ∷ all_granted ss (run s d)

-- No statement of the schedule releases the lease.
abbrev pub KeepsLease : Text → Text → List Statement → Type 0
KeepsLease id token = All (λ s. releases id token s ≡ false)

pub run_all-IsHeld :
    (id token : Text) (ss : List Statement) (d : Db)
    → WellFormed d
    → IsHeld id token d
    → KeepsLease id token ss
    → IsHeld id token (run_all ss d) × All (λ g. g ≢ some id) (all_granted ss d)
unfolding run_all all_granted
run_all-IsHeld id token [] d w h k = (h, tt)
run_all-IsHeld id token (s ∷ ss) d w h k =
    let rest =
      run_all-IsHeld id token ss (run s d) (run-WellFormed s d w) (run-IsHeld id token d s w h k.0)
        k.1 in
    (rest.0, (granted-ne-held d w s id token h, rest.1))

-- Two workers never hold one job: from well-formed tables, after a claim handed out a job, and for
-- as long as no statement completes or fails the job showing the claim's token or no token, and
-- none recovers it, the job stays leased under the claim's token, and no claim, of any process,
-- hands it out again.
pub exclusive_lease :
    (s : Statement) (ss : List Statement) (d : Db) (id : Text)
    → WellFormed d
    → granted s d ≡ some id
    → KeepsLease id (shown_token s) ss
    → IsHeld id (shown_token s) (run_all ss (run s d))
      × All (λ g. g ≢ some id) (all_granted ss (run s d))
exclusive_lease s ss d id w g k =
    run_all-IsHeld id (shown_token s) ss (run s d) (run-WellFormed s d w)
      (granted-Takes d w s id g).held k
