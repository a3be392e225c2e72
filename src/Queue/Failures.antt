-- ===== src/Queue/Failures.antt =====
-- What a worker's calls do where its lease is gone, and what `Fail` does where there is none.
use local_first_job_queue.Prelude.{
  ℕ, suc, ◌+◌, ◌≡◌, refl, sym, ap, ◌∙◌, subst, inl, inr, Bool, true, false, Option, none, some,
  List, [], ◌∷◌, Text, eq_text_iff, find?, count, some-eq, arith, if◌then◌else◌, Bool-cases,
  Option-cases,
}
use local_first_job_queue.Prelude.Predicates.{find?-test}
use local_first_job_queue.Clock.{Duration, add, format}
use local_first_job_queue.Models.{Job, is_leased}
use local_first_job_queue.Store.{
  Row, Db, World, Env, Error, Result, ok, err, driver, lease_lost, time_now, statement, raise, lift,
  ◌>>=◌,
}
use local_first_job_queue.Store.Rows.{update_where, scan_job, scan_row, get_job}
use local_first_job_queue.Store.Insert.{insert_event}
use local_first_job_queue.Store.Changes.{
  token_is, holds_lease, holds_token, complete_row, renew_row, fail_row,
}
use local_first_job_queue.Store.Lookup.{find_id, find_id_of_found}
use local_first_job_queue.Statements.Shape.{WellFormed}
use local_first_job_queue.Statements.Exclusive.{IsHeld}
use local_first_job_queue.Queue.Idempotency.{IsQuiet}
use local_first_job_queue.Queue.{
  acknowledge, fail, fail_known, renew, failure_event, failure_metadata, should_retry, is_foreign,
}

-- A test that finds no row counts none and updates none.
pub count-none : (p : Row → Bool) (rows : List Row) → find? p rows ≡ none → count p rows ≡ 0
unfolding find? count
count-none p [] h = refl
count-none p (r ∷ rs) h = ground (arith, count-none p rs)

pub update_where-none :
    (p : Row → Bool) (f : Row → Row) (rows : List Row)
    → find? p rows ≡ none
    → update_where p f rows ≡ rows
unfolding find? update_where
update_where-none p f [] h = refl
update_where-none p f (r ∷ rs) h = ground (arith, update_where-none p f rs)

token_owner : (t : Text) (o : Option Text) → token_is t o ≡ true → o ≡ some t
token_owner t none h = cc
token_owner t (some u) h = ap some ((eq_text_iff u t).0 h)

-- The lease is gone: no row has the job's id and this token.
module _ (c : ℕ) (cs id : Text) (d : Db) (w : WellFormed d) where
  not_found : ¬ IsHeld id (c ∷ cs) d → find? (holds_lease id (c ∷ cs)) d.jobs ≡ none
  not_found gone = elim (Option-cases (find? (holds_lease id (c ∷ cs)) d.jobs)) [
    | inl q ↦ q
    | inr (r, q) ↦ absurd (gone (held r q (find?-test (holds_lease id (c ∷ cs)) d.jobs r q)))
  ]
    where
      same_id : (r : Row) → holds_lease id (c ∷ cs) r ≡ true → r.id ≡ id
      same_id r t = ground (arith, eq_text_iff r.id id)

      held :
          (r : Row)
          → find? (holds_lease id (c ∷ cs)) d.jobs ≡ some r
          → holds_lease id (c ∷ cs) r ≡ true
          → IsHeld id (c ∷ cs) d
      held r q t = record {
        row = r;
        found =
            subst (λ i. find_id i d.jobs ≡ some r) (same_id r t)
              (find_id_of_found _ d.jobs r w.ids q);
        is_lease = ground arith;
        owner = token_owner (c ∷ cs) r.lease_token (ground arith);
      }

-- The call came to nothing: it failed, and the tables are as they were.
abbrev pub IsRefused : {A : Type 0} → Result A × World → Db → Type 0
IsRefused (r, v) d = ((x : Error) × (r ≡ err x)) × (v.db ≡ d)

module _ (e : Env) (w : World) (c : ℕ) (cs id : Text) (ok_db : WellFormed w.db)
    (gone : ¬ IsHeld id (c ∷ cs) w.db) where
  acknowledge_stale : IsRefused (acknowledge e id (c ∷ cs) w) w.db
  unfolding acknowledge ◌>>=◌ time_now statement
  acknowledge_stale = elim (Bool-cases (e.fails (suc w.ticks))) [
    | inl q ↦ ((driver, ground arith), ground arith)
    | inr q ↦
        let lost = not_found c cs id w.db ok_db gone in
        (
          (lease_lost, ground (arith, q, count-none (holds_lease id (c ∷ cs)) w.db.jobs lost)),
          ground (
            arith,
            q,
            count-none (holds_lease id (c ∷ cs)) w.db.jobs lost,
            update_where-none (holds_lease id (c ∷ cs)) (complete_row (format (e.now w.ticks)))
                w.db.jobs lost,
          ),
        )
  ]

  renew_stale : (t : Duration) → IsRefused (renew e id (c ∷ cs) t w) w.db
  unfolding renew ◌>>=◌ time_now statement
  renew_stale t = elim (Bool-cases (e.fails (suc w.ticks))) [
    | inl q ↦ ((driver, ground arith), ground arith)
    | inr q ↦
        let lost = not_found c cs id w.db ok_db gone in
        (
          (lease_lost, ground (arith, q, lost)),
          ground (
            arith,
            q,
            lost,
            update_where-none (holds_token id (c ∷ cs))
                (renew_row (format (e.now w.ticks)) (format (add (e.now w.ticks) t))) w.db.jobs
                lost,
          ),
        )
  ]

  fail_known_stale :
      (j : Job) (message : Text) (v : World)
      → v.db ≡ w.db
      → IsRefused (fail_known e id (c ∷ cs) message j v) w.db
  unfolding fail_known ◌>>=◌ time_now statement
  fail_known_stale j message v same =
      let lost =
        subst (λ d. find? (holds_lease id (c ∷ cs)) d.jobs ≡ none) (sym same)
          (not_found c cs id w.db ok_db gone) in
      elim (Bool-cases (e.fails (suc v.ticks))) [
        | inl q ↦ ((driver, ground arith), ground (arith, q, same))
        | inr q ↦ (
          (lease_lost, ground (arith, q, count-none (holds_lease id (c ∷ cs)) v.db.jobs lost)),
          ground (
            arith,
            q,
            same,
            count-none (holds_lease id (c ∷ cs)) v.db.jobs lost,
            update_where-none (holds_lease id (c ∷ cs))
                (fail_row (should_retry j) (format (e.now v.ticks))) v.db.jobs lost,
          ),
        )
      ]

  after_read :
      (r : Result Job) (message : Text) (v : World)
      → v.db ≡ w.db
      → IsRefused
          ((lift r >>= (λ j.
              if is_foreign (c ∷ cs) j
              then raise lease_lost
              else fail_known e id (c ∷ cs) message j))
            v)
          w.db
  unfolding ◌>>=◌
  after_read (err x) message v same = ((x, refl), same)
  after_read (ok j) message v same = elim (Bool-cases (is_foreign (c ∷ cs) j)) [
    | inl q ↦ rw q ((lease_lost, refl), same)
    | inr q ↦ rw q (fail_known_stale j message v same)
  ]

  fail_stale : (message : Text) → IsRefused (fail e id (c ∷ cs) message w) w.db
  unfolding fail ◌>>=◌ statement get_job
  fail_stale message = elim (Bool-cases (e.fails w.ticks)) [
    | inl q ↦ rw q ((driver, refl), refl)
    | inr q ↦ rw q (after_read (scan_row (find_id id w.db.jobs)) message _ refl)
  ]

  -- On well-formed tables, a worker that shows a token that is not empty and under which the job
  -- is not leased is refused: its acknowledgement, its failure report and its renewal each return
  -- an error and leave every table as it was, whether or not the driver fails as well.
  pub stale_worker :
      (message : Text) (t : Duration)
      → IsRefused (acknowledge e id (c ∷ cs) w) w.db
        × IsRefused (fail e id (c ∷ cs) message w) w.db
        × IsRefused (renew e id (c ∷ cs) t w) w.db
  stale_worker message t = (acknowledge_stale, fail_stale message, renew_stale t)

unleased_not_found :
    (id : Text) (d : Db) (r : Row)
    → WellFormed d
    → find_id id d.jobs ≡ some r
    → is_leased r.state ≡ false
    → find? (holds_lease id []) d.jobs ≡ none
unleased_not_found id d r w found idle = elim (Option-cases (find? (holds_lease id []) d.jobs)) [
  | inl q ↦ q
  | inr (s, q) ↦ absurd (clash s q (find?-test (holds_lease id []) d.jobs s q))
]
  where
    same_row :
        (s : Row) → find? (holds_lease id []) d.jobs ≡ some s → holds_lease id [] s ≡ true → s ≡ r
    same_row s q t = some-eq (
        sym (
          subst (λ i. find_id i d.jobs ≡ some s) (ground (arith, eq_text_iff s.id id))
            (find_id_of_found _ d.jobs s w.ids q))
        ∙ found)

    clash : (s : Row) → find? (holds_lease id []) d.jobs ≡ some s → holds_lease id [] s ≡ true → ⊥
    clash s q t = ground (arith, ap is_leased (ap (λ (x : Row). x.state) (same_row s q t)))

-- On well-formed tables, where no statement fails and the job's timestamps parse, `Fail`, which
-- shows no token, on a job that is not leased reports success, changes no job, and appends an
-- event of a retry or a dead-lettering that did not happen.
pub fail_unleased :
    (e : Env) (w : World) (id message : Text) (r : Row) (j : Job)
    → IsQuiet e
    → WellFormed w.db
    → find_id id w.db.jobs ≡ some r
    → scan_job r ≡ ok j
    → is_leased r.state ≡ false
    → fail e id [] message w ≡ (
      ok tt,
      record {
        db =
            (insert_event id
              (failure_event (should_retry j))
              (some (failure_metadata (should_retry j) j message))
              (e.now (suc (suc (suc w.ticks))))
              w.db).1;
        ticks = w.ticks + 5;
      },
    )
unfolding fail ◌>>=◌ time_now statement get_job scan_row insert_event fail_known
fail_unleased e w id message r j quiet ok_db found scans idle =
    let lost = unleased_not_found id w.db r ok_db found idle in
    ground (
      arith,
      quiet w.ticks,
      quiet (suc (suc w.ticks)),
      quiet (suc (suc (suc (suc w.ticks)))),
      found,
      scans,
      count-none (holds_lease id []) w.db.jobs lost,
      update_where-none (holds_lease id [])
          (fail_row (should_retry j) (format (e.now (suc w.ticks)))) w.db.jobs lost,
    )
