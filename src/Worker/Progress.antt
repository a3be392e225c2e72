-- ===== src/Worker/Progress.antt =====
-- A worker that nobody disturbs comes to an end of its work.
use local_first_job_queue.Prelude.{
  ℕ, zero, suc, ◌<◌, ◌≤◌, ◌≡◌, refl, sym, inl, inr, ◌⊎◌, true, false, Option, none, some, [], ◌∷◌,
  Text, eq_text, eq_text_refl, keep, Bool-cases, arith, ℤ, pos, ltb_ℤ, ◌+ℤ◌, +ℤ_parts,
}
use mathlib.Core.Path.{subst}
use local_first_job_queue.Clock.{format}
use local_first_job_queue.Models.{Job, leased}
use local_first_job_queue.Store.{Row, World, Env, pure, ◌>>=◌}
use local_first_job_queue.Store.Rows.{update_where, has_id}
use local_first_job_queue.Store.Columns.{column, id_column, column-update_where}
use local_first_job_queue.Store.Claim.{is_ready}
use local_first_job_queue.Store.Changes.{holds_lease, complete_row, fail_row}
use local_first_job_queue.Store.Insert.{insert_event}
use local_first_job_queue.Store.Readable.{scanned, scan_job-IsReadable}
use local_first_job_queue.Store.Attempts.{
  budget_left, attempts_left, all_left, all_left-update_where,
}
use local_first_job_queue.Prelude.Predicates.{Distinct}
use local_first_job_queue.Statements.Exclusive.{IsHeld}
use local_first_job_queue.Statements.Shape.{WellFormed}
use local_first_job_queue.Statements.Reading.{Reads, run_all-Reads}
use local_first_job_queue.Statements.Refine.{Follows-refl, lease-Follows}
use local_first_job_queue.Queue.{should_retry}
use local_first_job_queue.Queue.Idempotency.{IsQuiet}
use local_first_job_queue.Queue.Outcomes.{holds, acknowledge_runs}
use local_first_job_queue.Queue.Failing.{fail_runs}
use local_first_job_queue.Queue.Leasing.{
  held_after, leased_row, leased_db, Leases, FindsNothing, lease_lem,
}
use local_first_job_queue.Fault.{Failure, Outcome}
use local_first_job_queue.Worker.{
  Settings, renews_lease, idle, run_handler, finish, others, heartbeat, after_heartbeat, work_on,
  after_lease, process_one,
}
use local_first_job_queue.Worker.Refine.{after_lease-Follows, process_one-WellFormed}

budget_left-retry :
    (m k : ℤ) → ltb_ℤ (k +ℤ pos 1) m ≡ true → budget_left m (k +ℤ pos 1) < budget_left m k
budget_left-retry m k h = ground (arith, +ℤ_parts k (pos 1), h)

attempts_left-leased :
    (r : Row) → r.state ≡ leased → attempts_left r ≡ budget_left r.max_attempts r.retry_count
unfolding attempts_left
attempts_left-leased r h = rw h refl

budget_left-pos : (m k : ℤ) → 0 < budget_left m k
budget_left-pos m k = omega arith

only_id : (id token : Text) (x : Row) → holds_lease id token x ≡ true → eq_text x.id id ≡ true
only_id id token x h = ground arith

module _ (e : Env) (s : Settings) (c : ℕ) (cs : Text) (w : World) (quiet : IsQuiet e)
    (l : Leases e s.kind s.lease_duration (c ∷ cs) w)
    (ids : Distinct (column id_column w.db.jobs)) where
  abbrev row : Row
  row = leased_row e s.kind s.lease_duration (c ∷ cs) w l.row

  abbrev job : Job
  job = scanned row l.readable

  abbrev after : World
  after = record {
    db = leased_db e s.kind s.lease_duration (c ∷ cs) w l.row;
    ticks = suc (suc (suc (suc (suc w.ticks))));
  }

  abbrev held : IsHeld l.row.id (c ∷ cs) after.db
  held = held_after e s.kind s.lease_duration (c ∷ cs) w l

  -- The lease takes no attempt away.
  leased_left : all_left after.db.jobs ≡ all_left w.db.jobs
  unfolding insert_event attempts_left is_ready
  leased_left =
      let same_row : attempts_left row ≡ attempts_left l.row = ground (arith, l.ready) in
      omega (
        arith,
        same_row,
        all_left-update_where (has_id l.row.id) (leased_row e s.kind s.lease_duration (c ∷ cs) w)
            l.row.id w.db.jobs l.row (λ x q. q) ids l.found (eq_text_refl l.row.id),
      )

  ids_after : Distinct (column id_column after.db.jobs)
  unfolding insert_event
  ids_after =
      rw
        (column-update_where id_column (has_id l.row.id)
          (leased_row e s.kind s.lease_duration (c ∷ cs) w) w.db.jobs (λ x. refl))
        ids

  closed :
      (f : Row → Row)
      → attempts_left (f row) < attempts_left row
      → all_left (update_where (holds_lease l.row.id (c ∷ cs)) f after.db.jobs)
        < all_left after.db.jobs
  closed f less = omega (
    arith,
    less,
    all_left-update_where (holds_lease l.row.id (c ∷ cs)) f l.row.id after.db.jobs row
        (only_id l.row.id (c ∷ cs)) ids_after l.found_after (holds l.row.id c cs after.db held),
  )

  finish_less :
      (text : Failure → Text) (o : Option Failure)
      → all_left (finish e text job o after).1.db.jobs < all_left after.db.jobs
  unfolding finish scanned insert_event attempts_left
  finish_less text none = rw (acknowledge_runs e after l.row.id c cs quiet held) (
      closed (complete_row (format (e.now after.ticks)))
        (budget_left-pos row.max_attempts row.retry_count))
  finish_less text (some x) = elim (Bool-cases (should_retry job)) [
    | inl q ↦
        rw
          (
            fail_runs e after l.row.id c cs (text x) job quiet held
                (scan_job-IsReadable row l.readable),
            q,
          )
          (closed (fail_row true (format (e.now (suc after.ticks))))
            (budget_left-retry row.max_attempts row.retry_count q))
    | inr q ↦
        rw
          (
            fail_runs e after l.row.id c cs (text x) job quiet held
                (scan_job-IsReadable row l.readable),
            q,
          )
          (closed (fail_row false (format (e.now (suc after.ticks))))
            (budget_left-pos row.max_attempts row.retry_count))
  ]

  work_less :
      (handler : Job → Outcome) (text : Failure → Text)
      → all_left (work_on e s handler text [] [] job after).1.db.jobs < all_left w.db.jobs
  unfolding work_on after_heartbeat others heartbeat ◌>>=◌ pure
  work_less handler text = elim (Bool-cases (renews_lease s job)) [
    | inl q ↦ rw (q, sym leased_left) (finish_less text (run_handler (handler job)))
    | inr q ↦ rw (q, sym leased_left) (finish_less text (run_handler (handler job)))
  ]

  round_less :
      (handler : Job → Outcome) (text : Failure → Text)
      → all_left (process_one e s handler text [] [] w).1.db.jobs < all_left w.db.jobs
  unfolding process_one after_lease
  round_less handler text = rw l.runs (work_less handler text)

process_one-Reads :
    (e : Env) (s : Settings) (handler : Job → Outcome) (text : Failure → Text) (w : World)
    → Reads w.db
    → Reads (process_one e s handler text [] [] w).1.db
unfolding process_one
process_one-Reads e s handler text w h =
    let f =
      after_lease-Follows w.db e s handler text [] [] _ _
        ((lease-Follows w.db e s.kind s.lease_duration).at w (Follows-refl w.db)) in
    subst Reads f.result (run_all-Reads f.statements w.db h)

-- The random source always gives a token.
abbrev pub GivesTokens : Env → Type 0
GivesTokens e = (k : ℕ) → (c : ℕ) × (cs : Text) × (e.random k ≡ some (c ∷ cs))

-- A worker's loop, for a number of jobs.
unfoldable pub process_times :
    Env → Settings → (Job → Outcome) → (Failure → Text) → ℕ → World → World
process_times e s handler text zero w = w
process_times e s handler text (suc n) w =
    process_times e s handler text n (process_one e s handler text [] [] w).1

-- The worker finds nothing to do, and no job of its kind is ready.
abbrev pub IsIdle : Env → Settings → (Job → Outcome) → (Failure → Text) → World → Type 0
IsIdle e s handler text v =
    ((process_one e s handler text [] [] v).0 ≡ idle)
    × (keep (is_ready s.kind (format (e.now v.ticks))) v.db.jobs ≡ [])

module _ (e : Env) (s : Settings) (handler : Job → Outcome) (text : Failure → Text)
    (quiet : IsQuiet e) (tokens : GivesTokens e) where
  rested :
      (c : ℕ) (cs : Text) (w : World)
      → FindsNothing e s.kind s.lease_duration (c ∷ cs) w
      → IsIdle e s handler text w
  unfolding process_one after_lease
  rested c cs w f = (rw f.runs refl, f.none_ready)

  -- A round finds nothing ready, or takes an attempt away.
  pub round :
      (w : World)
      → WellFormed w.db
      → Reads w.db
      → IsIdle e s handler text w
        ⊎ (all_left (process_one e s handler text [] [] w).1.db.jobs < all_left w.db.jobs)
  round w well reads =
      let (c, cs, given) = tokens (suc w.ticks) in
      elim (lease_lem e s.kind s.lease_duration (c ∷ cs) w quiet well reads given) [
        | inl f ↦ inl (rested c cs w f)
        | inr l ↦ inr (round_less e s c cs w quiet l well.ids handler text)
      ]

  -- A worker that nobody disturbs, whatever its handler returns, comes to rest: on well-formed
  -- tables whose timestamps parse, where no statement fails and the random source gives tokens,
  -- after at most as many rounds as the jobs have attempts left it finds no ready job.
  pub process_times-rests :
      (n : ℕ) (w : World)
      → WellFormed w.db
      → Reads w.db
      → all_left w.db.jobs ≤ n
      → (k : ℕ) × (k ≤ n) × IsIdle e s handler text (process_times e s handler text k w)
  unfolding process_times
  process_times-rests zero w well reads enough = elim (round w well reads) [
    | inl rest ↦ (0, omega arith, rest)
    | inr less ↦ absurd (omega (arith, less, enough))
  ]
  process_times-rests (suc n) w well reads enough = elim (round w well reads) [
    | inl rest ↦ (0, omega arith, rest)
    | inr less ↦
        let (k, small, rest) =
          process_times-rests n (process_one e s handler text [] [] w).1
            (process_one-WellFormed e s handler text [] [] w well)
            (process_one-Reads e s handler text w reads) (omega (arith, less, enough)) in
        (suc k, omega (arith, small), rest)
  ]
