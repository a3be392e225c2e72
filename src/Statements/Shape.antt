-- ===== src/Statements/Shape.antt =====
-- What holds of the tables after any interleaving of statements.
use local_first_job_queue.Prelude.{
  ℕ, suc, ◌<◌, ◌≡◌, refl, ap, inl, inr, Bool, true, false, Option, none, some, List, [], ◌∷◌, ◌++◌,
  Text, eq_text, keep, find?, Bool-cases, Option-cases, arith, leb_ℤ,
}
use mathlib.Core.Path.{subst}
use local_first_job_queue.Store.Changes.{holds_token}
use local_first_job_queue.Prelude.Predicates.{All, All-snoc, All-keep, Distinct, find?-none}
use local_first_job_queue.Clock.{Stamp, format}
use local_first_job_queue.Models.{
  Job, JobState, leased, pending, completed, failed, dead_letter, other_state, is_leased,
}
use local_first_job_queue.Store.{Row, EventRow, Db, empty}
use local_first_job_queue.Store.Rows.{update_where, set_jobs, has_id}
use local_first_job_queue.Store.Columns.{
  column, id_column, key_column, column-update_where, Distinct-keep, Distinct-column-snoc,
  IsNew-of_search,
}
use local_first_job_queue.Store.Insert.{insert_row, row_of, has_key, conflicting}
use local_first_job_queue.Store.Recover.{next_attempt, recovered_state}
use local_first_job_queue.Queue.{new_job}
use local_first_job_queue.Statements.{
  Statement, inserts, claims, claims_id, completes, fails, renews, requeues, recovers, appends,
  deletes_old_events, deletes_old_jobs, trims, records_run, run, run_all,
}

-- A row has a deadline and a token exactly while it is leased.
abbrev pub LeaseShape : JobState → Option Stamp → Option Text → Type 0
LeaseShape leased until token = ((s : Stamp) × (until ≡ some s)) × ((t : Text) × (token ≡ some t))
LeaseShape _ until token = (until ≡ none) × (token ≡ none)

abbrev pub HasLeaseShape : Row → Type 0
HasLeaseShape r = LeaseShape r.state r.leased_until r.lease_token

-- Event ids grow along the log, above `low`, and stay below `next`.
abbrev pub Ascends : ℕ → ℕ → List EventRow → Type 0
Ascends low next [] = low < next
Ascends low next (v ∷ vs) = (low < v.id) × Ascends v.id next vs

pub record WellFormed (d : Db) : Type 0 where
  pub ids : Distinct (column id_column d.jobs)
  pub keys : Distinct (column key_column d.jobs)
  pub leases : All HasLeaseShape d.jobs
  pub log : Ascends 0 d.next_event d.events

pub empty-WellFormed : WellFormed empty
empty-WellFormed = record { ids = tt; keys = tt; leases = tt; log = omega arith }

pub All-update_where :
    (P : Row → Type 0) (p : Row → Bool) (f : Row → Row) (rows : List Row)
    → ((r : Row) → p r ≡ true → P r → P (f r))
    → All P rows
    → All P (update_where p f rows)
unfolding update_where
All-update_where P p f [] k h = tt
All-update_where P p f (r ∷ rs) k h = elim (Bool-cases (p r)) [
  | inl q ↦ rw q (k r q h.0, All-update_where P p f rs k h.1)
  | inr q ↦ rw q (h.0, All-update_where P p f rs k h.1)
]

-- An update of the lease columns and the state.
update-WellFormed :
    (p : Row → Bool) (f : Row → Row) (d : Db)
    → ((r : Row) → (f r).id ≡ r.id)
    → ((r : Row) → (f r).idempotency_key ≡ r.idempotency_key)
    → ((r : Row) → p r ≡ true → HasLeaseShape r → HasLeaseShape (f r))
    → WellFormed d
    → WellFormed (set_jobs d (update_where p f d.jobs))
update-WellFormed p f d ids keys shape w = record {
  ids = rw (column-update_where id_column p f d.jobs (λ r. ap some (ids r))) w.ids;
  keys = rw (column-update_where key_column p f d.jobs keys) w.keys;
  leases = All-update_where HasLeaseShape p f d.jobs shape w.leases;
  log = w.log;
}

pub Ascends-lower :
    (low lower next : ℕ) (vs : List EventRow)
    → lower < low
    → Ascends low next vs
    → Ascends lower next vs
Ascends-lower low lower next [] h a = omega arith
Ascends-lower low lower next (v ∷ vs) h a = (omega arith, a.1)

pub Ascends-keep :
    (p : EventRow → Bool) (low next : ℕ) (vs : List EventRow)
    → Ascends low next vs
    → Ascends low next (keep p vs)
unfolding keep
Ascends-keep p low next [] a = a
Ascends-keep p low next (v ∷ vs) a = elim (Bool-cases (p v)) [
  | inl q ↦ rw q (a.0, Ascends-keep p v.id next vs a.1)
  | inr q ↦ rw q (Ascends-lower v.id low next (keep p vs) a.0 (Ascends-keep p v.id next vs a.1))
]

Ascends-snoc :
    (low : ℕ) (vs : List EventRow) (v : EventRow) (next : ℕ)
    → v.id ≡ next
    → Ascends low next vs
    → Ascends low (suc next) (vs ++ v ∷ [])
Ascends-snoc low [] v next e a = (omega arith, omega arith)
Ascends-snoc low (u ∷ us) v next e a = (a.0, Ascends-snoc u.id us v next e a.1)

renewed_shape :
    (s : JobState) (until : Stamp) (old : Option Stamp) (token : Option Text)
    → is_leased s ≡ true
    → LeaseShape s old token
    → LeaseShape s (some until) token
renewed_shape leased until old token q h = ((until, refl), h.1)
renewed_shape pending until old token q h = cc
renewed_shape completed until old token q h = cc
renewed_shape failed until old token q h = cc
renewed_shape dead_letter until old token q h = cc
renewed_shape (other_state s) until old token q h = cc

renew_test : (id token : Text) (r : Row) → holds_token id token r ≡ true → is_leased r.state ≡ true
renew_test id token r q = ground arith

recovered_shape : (j : Job) → LeaseShape (recovered_state j) none none
recovered_shape j = elim (Bool-cases (leb_ℤ j.max_attempts (next_attempt j))) [
  | inl q ↦ rw q (refl, refl)
  | inr q ↦ rw q (refl, refl)
]

key_differs :
    (k : Text) (r : Row) (u : Text)
    → key_column r ≡ some u
    → has_key k r ≡ false
    → eq_text u k ≡ false
key_differs k r u e h = ground arith

keys-snoc :
    (row : Row) (rows : List Row)
    → Distinct (column key_column rows)
    → conflicting row.idempotency_key rows ≡ none
    → Distinct (column key_column (rows ++ row ∷ []))
keys-snoc row rows w free = Distinct-column-snoc key_column rows row w λ t e.
    IsNew-of_search key_column t (has_key t) rows (key_differs t)
      (find?-none (has_key t) rows (subst (λ o. conflicting o rows ≡ none) e free))

ids-snoc :
    (row : Row) (rows : List Row)
    → Distinct (column id_column rows)
    → find? (has_id row.id) rows ≡ none
    → Distinct (column id_column (rows ++ row ∷ []))
ids-snoc row rows w free = Distinct-column-snoc id_column rows row w λ t e.
    IsNew-of_search id_column t (has_id t) rows (λ r u s h. ground arith)
      (find?-none (has_id t) rows (ground arith))

insert-WellFormed :
    (row : Row) (d : Db) → HasLeaseShape row → WellFormed d → WellFormed (insert_row row d).1
unfolding insert_row
insert-WellFormed row d shape w = elim (Option-cases (conflicting row.idempotency_key d.jobs)) [
  | inr (held, q) ↦ rw q w
  | inl q ↦ elim (Option-cases (find? (has_id row.id) d.jobs)) [
    | inr (taken, r) ↦ rw (q, r) w
    | inl r ↦
        rw (q, r)
          (record {
            ids = ids-snoc row d.jobs w.ids r;
            keys = keys-snoc row d.jobs w.keys q;
            leases = All-snoc HasLeaseShape d.jobs row w.leases shape;
            log = w.log;
          })
  ]
]

-- Every statement keeps the tables well formed.
pub run-WellFormed : (s : Statement) (d : Db) → WellFormed d → WellFormed (run s d)
unfolding run new_job row_of
run-WellFormed (inserts id kind payload cfg now) d w = insert-WellFormed _ d (refl, refl) w
run-WellFormed (claims e kind now until token) d w =
    update-WellFormed _ _ d (λ r. refl) (λ r. refl) (λ r q h. ((format until, refl), (token, refl)))
      w
run-WellFormed (claims_id id now until token) d w =
    update-WellFormed _ _ d (λ r. refl) (λ r. refl) (λ r q h. ((format until, refl), (token, refl)))
      w
run-WellFormed (completes id token now) d w =
    update-WellFormed _ _ d (λ r. refl) (λ r. refl) (λ r q h. (refl, refl)) w
run-WellFormed (fails id token true now) d w =
    update-WellFormed _ _ d (λ r. refl) (λ r. refl) (λ r q h. (refl, refl)) w
run-WellFormed (fails id token false now) d w =
    update-WellFormed _ _ d (λ r. refl) (λ r. refl) (λ r q h. (refl, refl)) w
run-WellFormed (renews id token now until) d w =
    update-WellFormed _ _ d (λ r. refl) (λ r. refl)
      (λ r q h. renewed_shape r.state (format until) _ _ (renew_test id token r q) h) w
run-WellFormed (requeues id n payload now) d w =
    update-WellFormed _ _ d (λ r. refl) (λ r. refl) (λ r q h. (refl, refl)) w
run-WellFormed (recovers now j) d w =
    update-WellFormed _ _ d (λ r. refl) (λ r. refl) (λ r q h. recovered_shape j) w
run-WellFormed (appends id t m at) d w = record {
  ids = w.ids;
  keys = w.keys;
  leases = w.leases;
  log = Ascends-snoc 0 d.events _ d.next_event refl w.log;
}
run-WellFormed (deletes_old_events cutoff) d w = record {
  ids = w.ids;
  keys = w.keys;
  leases = w.leases;
  log = Ascends-keep _ 0 _ d.events w.log;
}
run-WellFormed (deletes_old_jobs cutoff) d w = record {
  ids = Distinct-keep id_column _ d.jobs w.ids;
  keys = Distinct-keep key_column _ d.jobs w.keys;
  leases = All-keep HasLeaseShape _ d.jobs w.leases;
  log = w.log;
}
run-WellFormed (trims limit) d w = record {
  ids = w.ids;
  keys = w.keys;
  leases = w.leases;
  log = Ascends-keep _ 0 _ d.events w.log;
}
run-WellFormed (records_run started source p res) d w = record {
  ids = w.ids;
  keys = w.keys;
  leases = w.leases;
  log = w.log;
}

-- Well-formed tables stay well formed through any statements, of whatever processes, in whatever
-- order.
pub run_all-WellFormed : (ss : List Statement) (d : Db) → WellFormed d → WellFormed (run_all ss d)
unfolding run_all
run_all-WellFormed [] d w = w
run_all-WellFormed (s ∷ ss) d w = run_all-WellFormed ss (run s d) (run-WellFormed s d w)
