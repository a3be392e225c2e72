-- ===== src/Statements/Exclusive.antt =====
-- A lease has one owner: what leaves a held job alone, and what a claim can take.
use local_first_job_queue.Prelude.{
  ◌≡◌, refl, inl, inr, Bool, true, false, ◌&&◌, not, none, some, [], ◌∷◌, Text, eq_text,
  eq_text_iff, keep, find?, Bool-cases, Option-cases, arith,
}
use local_first_job_queue.Clock.{Stamp, format}
use local_first_job_queue.Prelude.Predicates.{All-keep, find?-test}
use local_first_job_queue.Models.{leased}
use local_first_job_queue.Store.{Row, Db, Env}
use local_first_job_queue.Store.Rows.{update_where, update_returning, set_jobs, has_id}
use local_first_job_queue.Store.Claim.{claim, best, is_ready, pending_order, is_chosen}
use local_first_job_queue.Store.Insert.{insert_row, conflicting}
use local_first_job_queue.Store.Changes.{holds_lease}
use local_first_job_queue.Store.Prune.{is_old}
use local_first_job_queue.Store.Lookup.{
  find_id, find_id-update_where, find?-append, find?-keep, keep-test, best-All, find_id-only,
}
use local_first_job_queue.Statements.{
  Statement, inserts, claims, claims_id, completes, fails, renews, requeues, recovers, appends,
  deletes_old_events, deletes_old_jobs, trims, records_run, run,
}
use local_first_job_queue.Statements.Shape.{WellFormed}

-- The job is leased under the token.
pub record IsHeld (id token : Text) (d : Db) : Type 0 where
  pub row : Row
  pub found : find_id id d.jobs ≡ some row
  pub is_lease : row.state ≡ leased
  pub owner : row.lease_token ≡ some token

-- The token that the statement shows opens the lease: its own, or none at all.
abbrev pub opens : Text → Text → Bool
opens token [] = true
opens token (c ∷ cs) = eq_text token (c ∷ cs)

-- The statements that may end the lease of a job under a token.
abbrev pub releases : Text → Text → Statement → Bool
releases id token (completes id' shown now) = eq_text id id' && opens token shown
releases id token (fails id' shown retry now) = eq_text id id' && opens token shown
releases id token (recovers now j) = eq_text id j.id
releases id token _ = false

ready_not_leased :
    (kind : Text) (now : Stamp) (s : Row) → is_ready kind now s ≡ true → s.state ≡ leased → ⊥
unfolding is_ready
ready_not_leased kind now s a b = ground arith

module _ (id token : Text) (d : Db) where
  -- An update leaves the lease if it leaves the held row's state and token.
  update-IsHeld :
      (p : Row → Bool) (f : Row → Row)
      → ((r : Row) → (f r).id ≡ r.id)
      → (h : IsHeld id token d)
      → (p h.row ≡ true → ((f h.row).state ≡ leased) × ((f h.row).lease_token ≡ some token))
      → IsHeld id token (set_jobs d (update_where p f d.jobs))
  update-IsHeld p f ids h k = elim (Bool-cases (p h.row)) [
    | inl q ↦ record {
      row = f h.row;
      found = rw (find_id-update_where id p f d.jobs ids, h.found) (ground arith);
      is_lease = (k q).0;
      owner = (k q).1;
    }
    | inr q ↦ record {
      row = h.row;
      found = rw (find_id-update_where id p f d.jobs ids, h.found) (ground arith);
      is_lease = h.is_lease;
      owner = h.owner;
    }
  ]

  -- While the job is held, no ready row has its id.
  not_chosen :
      (w : WellFormed d) (h : IsHeld id token d) (e : Env) (kind : Text) (now : Stamp) (s : Row)
      → best (pending_order e now) (keep (is_ready kind now) d.jobs) ≡ some s
      → eq_text s.id id ≡ false
  not_chosen w h e kind now s q = elim (Bool-cases (eq_text s.id id)) [
    | inl same ↦ absurd (ready_not_leased kind now s ready (leased_here same))
    | inr other ↦ other
  ]
    where
      ready : is_ready kind now s ≡ true
      ready =
          best-All (λ x. is_ready kind now x ≡ true) (pending_order e now) _ s
            (keep-test (is_ready kind now) d.jobs) q

      leased_here : eq_text s.id id ≡ true → s.state ≡ leased
      leased_here =
          best-All (λ x. eq_text x.id id ≡ true → x.state ≡ leased) (pending_order e now) _ s
            (All-keep _ (is_ready kind now) d.jobs
              (find_id-only (λ x. x.state ≡ leased) id d.jobs h.row w.ids h.found h.is_lease))
            q

  claim-IsHeld :
      (w : WellFormed d) (h : IsHeld id token d) (e : Env) (kind shown : Text) (now until : Stamp)
      → IsHeld id token (claim e kind now until shown d).1
  unfolding claim update_returning
  claim-IsHeld w h e kind shown now until =
      elim (Option-cases (best (pending_order e now) (keep (is_ready kind now) d.jobs))) [
        | inl q ↦ rw q (update-IsHeld (is_chosen none) _ (λ r. refl) h (λ x. cc))
        | inr (s, q) ↦ rw q (
            update-IsHeld (is_chosen (some s)) _ (λ r. refl) h
              (λ x. absurd (other_row s (not_chosen w h e kind now s q) x)))
      ]
    where
      other_row : (s : Row) → eq_text s.id id ≡ false → eq_text h.row.id s.id ≡ true → ⊥
      other_row s n x = ground (
        arith,
        find?-test (has_id id) d.jobs h.row h.found,
        eq_text_iff s.id id,
        eq_text_iff h.row.id s.id,
        eq_text_iff h.row.id id,
      )

  held_id : (h : IsHeld id token d) → eq_text h.row.id id ≡ true
  held_id h = find?-test (has_id id) d.jobs h.row h.found

  -- An unfenced test, or one fenced by another token, does not pass the held row.
  not_opened :
      (h : IsHeld id token d) (id' shown : Text)
      → (eq_text id id' && opens token shown) ≡ false
      → holds_lease id' shown h.row ≡ true
      → ⊥
  not_opened h id' [] n p =
      ground
        (arith, held_id h, eq_text_iff h.row.id id, eq_text_iff id id', eq_text_iff h.row.id id')
  not_opened h id' (c ∷ cs) n p = ground (
    arith,
    held_id h,
    h.owner,
    eq_text_iff h.row.id id,
    eq_text_iff id id',
    eq_text_iff h.row.id id',
  )

  insert-IsHeld : (row : Row) → (h : IsHeld id token d) → IsHeld id token (insert_row row d).1
  unfolding insert_row
  insert-IsHeld row h = elim (Option-cases (conflicting row.idempotency_key d.jobs)) [
    | inr (held, q) ↦ rw q h
    | inl q ↦ elim (Option-cases (find? (has_id row.id) d.jobs)) [
      | inr (taken, r) ↦ rw (q, r) h
      | inl r ↦
          rw (q, r)
            (record {
              row = h.row;
              found = find?-append (has_id id) d.jobs (row ∷ []) h.row h.found;
              is_lease = h.is_lease;
              owner = h.owner;
            })
    ]
  ]

  -- A statement that does not release the lease leaves the job held under the same token.
  pub run-IsHeld :
      (s : Statement)
      → WellFormed d
      → IsHeld id token d
      → releases id token s ≡ false
      → IsHeld id token (run s d)
  unfolding run
  run-IsHeld (inserts id' kind payload cfg now) w h n = insert-IsHeld _ h
  run-IsHeld (claims e kind now until shown) w h n =
      claim-IsHeld w h e kind shown (format now) (format until)
  run-IsHeld (claims_id id' now until shown) w h n =
      update-IsHeld _ _ (λ r. refl) h (λ p. absurd (ground (arith, h.is_lease)))
  run-IsHeld (completes id' shown now) w h n =
      update-IsHeld _ _ (λ r. refl) h (λ p. absurd (not_opened h id' shown n p))
  run-IsHeld (fails id' shown retry now) w h n =
      update-IsHeld _ _ (λ r. refl) h (λ p. absurd (not_opened h id' shown n p))
  run-IsHeld (renews id' shown now until) w h n =
      update-IsHeld _ _ (λ r. refl) h (λ p. (h.is_lease, h.owner))
  run-IsHeld (requeues id' m payload now) w h n =
      update-IsHeld _ _ (λ r. refl) h (λ p. absurd (ground (arith, h.is_lease)))
  run-IsHeld (recovers now j) w h n =
      update-IsHeld _ _ (λ r. refl) h
        (λ p. absurd (
          ground (
            arith,
            held_id h,
            eq_text_iff h.row.id id,
            eq_text_iff id j.id,
            eq_text_iff h.row.id j.id,
          )))
  run-IsHeld (appends id' t m at) w h n = record {
    row = h.row;
    found = h.found;
    is_lease = h.is_lease;
    owner = h.owner;
  }
  run-IsHeld (deletes_old_events cutoff) w h n = record {
    row = h.row;
    found = h.found;
    is_lease = h.is_lease;
    owner = h.owner;
  }
  run-IsHeld (deletes_old_jobs cutoff) w h n = record {
    row = h.row;
    found =
        find?-keep (has_id id) (λ r. not (is_old (format cutoff) r)) d.jobs h.row h.found
          (unfold is_old in ground (arith, h.is_lease));
    is_lease = h.is_lease;
    owner = h.owner;
  }
  run-IsHeld (trims limit) w h n = record {
    row = h.row;
    found = h.found;
    is_lease = h.is_lease;
    owner = h.owner;
  }
  run-IsHeld (records_run started source p res) w h n = record {
    row = h.row;
    found = h.found;
    is_lease = h.is_lease;
    owner = h.owner;
  }
