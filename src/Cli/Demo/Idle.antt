-- ===== src/Cli/Demo/Idle.antt =====
-- `waitUntilIdle` and `payloadName` of internal/cli/demo.go.
use local_first_job_queue.Prelude.{
  ◌≡◌, ◌≢◌, refl, sym, ap, subst, ◌∙◌, inl, inr, true, false, Bool-cases, List, [], ◌∷◌, count,
  arith,
}
use local_first_job_queue.Prelude.Predicates.{All}
use local_first_job_queue.Models.{pending, leased, Job, Event}
use local_first_job_queue.Store.{
  Row, Db, World, Env, Exec, Error, Result, ok, err, statement, pure, ◌>>=◌, continue,
}
use local_first_job_queue.Store.Keeps.{Keeps, Keeps-bind, Keeps-statement, Keeps-lift}
use local_first_job_queue.Store.Queries.{
  get_all_events, select_all_events, get_queue_stats, queue_stats, eq_state,
}
use local_first_job_queue.Store.Listings.{QueueSnapshot, query_jobs, get_all_jobs, inspect}
use local_first_job_queue.Statements.{Statement}
use local_first_job_queue.Worker.{others}
use local_first_job_queue.Cli.Demo.{wait_until_idle, is_idle, look}

-- A chain that succeeds, step by step.
record Binds {A B : Type 0} (m : Exec A) (f : A → Exec B) (w : World) : Type 0 where
  value : A
  after : World
  first : m w ≡ (ok value, after)
  rest : (m >>= f) w ≡ f value after

Binds-ok :
    {A B : Type 0} (m : Exec A) (f : A → Exec B) (w : World) (b : B)
    → ((m >>= f) w).0 ≡ ok b
    → Binds m f w
unfolding ◌>>=◌
Binds-ok {A = A} {B = B} m f w b h = go (m w) refl h
  where
    go : (p : Result A × World) → m w ≡ p → (continue p.0 f p.1).0 ≡ ok b → Binds m f w
    go (ok a, v) e q = record { value = a; after = v; first = e; rest = rw e refl }
    go (err x, v) e q = absurd (impossible q)
      where
        impossible : err x ≡ ok b → ⊥
        impossible q = cc

listing-Keeps : (P : Db → Type 0) (e : Env) → Keeps P (get_all_jobs e)
unfolding get_all_jobs query_jobs
listing-Keeps P e = Keeps-bind _ _ (Keeps-statement e _ (λ d h. h)) λ rows. Keeps-lift _

events-Keeps : (P : Db → Type 0) (e : Env) → Keeps P (get_all_events e)
unfolding get_all_events select_all_events
events-Keeps P e = Keeps-bind _ _ (Keeps-statement e _ (λ d h. h)) λ rows. Keeps-lift _

record Inspected (e : Env) (w : World) (snap : QueueSnapshot) : Type 0 where
  stats : snap.stats ≡ queue_stats w.db
  tables : (inspect e w).1.db ≡ w.db

abbrev the_rest : Env → List Job → List Event → Exec QueueSnapshot
the_rest e jobs events =
    get_queue_stats e >>= λ stats. pure (record { jobs = jobs; events = events; stats = stats })

stats_read :
    (e : Env) (jobs : List Job) (events : List Event) (w : World) (snap : QueueSnapshot)
    → (the_rest e jobs events w).0 ≡ ok snap
    → (snap.stats ≡ queue_stats w.db) × ((the_rest e jobs events w).1.db ≡ w.db)
unfolding get_queue_stats ◌>>=◌ statement pure
stats_read e jobs events w snap h = elim (Bool-cases (e.fails w.ticks)) [
  | inl q ↦ absurd (failed_first (rw q at h))
  | inr q ↦ rw q (stats_of (rw q at h), refl)
]
  where
    failed_first : err Error.driver ≡ ok snap → ⊥
    failed_first h = cc

    stats_of : {s : QueueSnapshot} → ok s ≡ ok snap → snap.stats ≡ s.stats
    stats_of h = cc

inspect-Inspected :
    (e : Env) (w : World) (snap : QueueSnapshot) → (inspect e w).0 ≡ ok snap → Inspected e w snap
unfolding inspect
inspect-Inspected e w snap h =
    let second = λ (jobs : List Job). (get_all_events e >>= λ events. the_rest e jobs events) in
    let a = Binds-ok (get_all_jobs e) second w snap h in
    let b =
      Binds-ok (get_all_events e) (λ events. the_rest e a.value events) a.after snap
        (rw a.rest at h) in
    let c =
      stats_read e a.value b.value b.after snap
        (subst (λ p. p.0 ≡ ok snap) b.rest (subst (λ p. p.0 ≡ ok snap) a.rest h)) in
    let here : a.after.db ≡ w.db =
      subst (λ p. p.1.db ≡ w.db) a.first ((listing-Keeps (λ d. d ≡ w.db) e).at w refl) in
    let there : b.after.db ≡ w.db =
      subst (λ p. p.1.db ≡ w.db) b.first ((events-Keeps (λ d. d ≡ w.db) e).at a.after here) in
    record {
      stats = c.0 ∙ ap queue_stats there;
      tables =
          subst (λ p. p.1.db ≡ w.db) (sym a.rest)
            (subst (λ p. p.1.db ≡ w.db) (sym b.rest) (c.1 ∙ there));
    }

-- No job is pending, and none is leased.
abbrev pub IsIdle : List Row → Type 0
IsIdle = All (λ (r : Row). (r.state ≢ pending) × (r.state ≢ leased))

none_counted :
    (rows : List Row)
    → count (λ (r : Row). eq_state r.state pending) rows ≡ 0
    → count (λ (r : Row). eq_state r.state leased) rows ≡ 0
    → IsIdle rows
unfolding count
none_counted [] p l = tt
none_counted (r ∷ rs) p l = (
  ((λ q. ground (arith, q)), (λ q. ground (arith, q))),
  none_counted rs (ground arith) (ground arith),
)

IsIdle-snapshot :
    (e : Env) (w : World) (snap : QueueSnapshot)
    → (inspect e w).0 ≡ ok snap
    → is_idle snap ≡ true
    → IsIdle (inspect e w).1.db.jobs
unfolding queue_stats
IsIdle-snapshot e w snap h q =
    let i = inspect-Inspected e w snap h in
    let p : count (λ (r : Row). eq_state r.state pending) w.db.jobs ≡ 0 =
      ap (λ s. s pending) (sym i.stats) ∙ ground arith in
    let l : count (λ (r : Row). eq_state r.state leased) w.db.jobs ≡ 0 =
      ap (λ s. s leased) (sym i.stats) ∙ ground arith in
    subst (λ d. IsIdle d.jobs) (sym i.tables) (none_counted w.db.jobs p l)

-- The wait ends with true only at a look at which no job is pending and none is leased, whatever
-- the worker does between the polls and whichever queries fail before their first row.
pub wait_until_idle_sound :
    (e : Env) (polls : List (List Statement)) (w : World)
    → (wait_until_idle e polls w).0 ≡ ok true
    → IsIdle (wait_until_idle e polls w).1.db.jobs
unfolding wait_until_idle
wait_until_idle_sound e [] w h = absurd (not_true h)
  where
    not_true : ok false ≡ ok true → ⊥
    not_true h = cc
wait_until_idle_sound e (ss ∷ polls) w h =
    looked (inspect e (others ss w).1).0 refl
      (wait_until_idle_sound e polls (inspect e (others ss w).1).1) h
  where
    looked :
        (r : Result QueueSnapshot)
        → (inspect e (others ss w).1).0 ≡ r
        → ((wait_until_idle e polls (inspect e (others ss w).1).1).0 ≡ ok true
            → IsIdle (wait_until_idle e polls (inspect e (others ss w).1).1).1.db.jobs)
        → (look r (wait_until_idle e polls) (inspect e (others ss w).1).1).0 ≡ ok true
        → IsIdle (look r (wait_until_idle e polls) (inspect e (others ss w).1).1).1.db.jobs
    looked (err x) q ih k = ih k
    looked (ok snap) q ih k = elim (Bool-cases (is_idle snap)) [
      | inl i ↦ rw i (IsIdle-snapshot e (others ss w).1 snap q i)
      | inr i ↦ rw i (ih (rw i at k))
    ]
