-- ===== src/Store/Retention.antt =====
-- What a retention run of internal/queue/prune.go leaves behind.
use local_first_job_queue.Prelude.{
  ℕ, suc, ◌+◌, ◌≤◌, ◌≡◌, ◌∙◌, refl, inl, inr, Bool, true, false, not, List, [], ◌∷◌, keep, count,
  length, Bool-cases, arith, if◌then◌else◌, pos, leb_ℤ,
}
use local_first_job_queue.Clock.{Time, sub, format}
use local_first_job_queue.Models.{RetentionSource, PrunePolicy, PruneResult}
use local_first_job_queue.Store.{
  Row, EventRow, Db, World, Env, Exec, Error, Result, ok, err, time_now, statement, pure, ◌>>=◌,
}
use local_first_job_queue.Store.Prune.{
  is_old, of_old_job, is_beyond, settle, transaction, prune_with_source, prune_body, prune_age,
  prune_excess, is_empty_policy, is_known_source, insert_run, delete_events, delete_jobs,
  delete_old_events, delete_old_jobs, trim_events, tick,
}

settle-atomic :
    {A : Type 0} (e : Env) (before : Db) (r : Result A) (v : World) (x : Error)
    → (settle e before r v).0 ≡ err x
    → (settle e before r v).1.db ≡ before
unfolding settle
settle-atomic e before (err y) v x h = refl
settle-atomic e before (ok a) v x h = ground arith

transaction-atomic :
    {A : Type 0} (e : Env) (m : Exec A) (w : World) (x : Error)
    → (transaction e m w).0 ≡ err x
    → (transaction e m w).1.db ≡ w.db
unfolding transaction
transaction-atomic e m w x h = elim (Bool-cases (e.fails w.ticks)) [
  | inl f ↦ rw f
  | inr f ↦ rw f (settle-atomic e w.db _ _ x (rw f at h))
]

-- A retention run that returns an error, at whatever statement it failed, leaves every table as
-- it was.
pub prune-atomic :
    (e : Env) (p : PrunePolicy) (source : RetentionSource) (w : World) (x : Error)
    → (prune_with_source e p source w).0 ≡ err x
    → (prune_with_source e p source w).1.db ≡ w.db
unfolding prune_with_source ◌>>=◌ time_now
prune-atomic e p source w x h = elim (Bool-cases (is_empty_policy p)) [
  | inl q ↦ rw q
  | inr q ↦ elim (Bool-cases (not (is_known_source source))) [
    | inl u ↦ rw (q, u)
    | inr u ↦
        rw (q, u)
          (transaction-atomic e (prune_body e (e.now w.ticks) p source) _ x (rw (q, u) at h))
  ]
]

-- What a policy keeps of the jobs and of the events, in two steps.
abbrev pub kept_jobs : PrunePolicy → Time → Db → List Row
kept_jobs p started d =
    if leb_ℤ p.max_job_age (pos 0)
    then d.jobs
    else keep (λ r. not (is_old (format (sub started p.max_job_age)) r)) d.jobs

abbrev pub events_by_age : PrunePolicy → Time → Db → List EventRow
events_by_age p started d =
    if leb_ℤ p.max_job_age (pos 0)
    then d.events
    else keep (λ v. not (of_old_job (format (sub started p.max_job_age)) d.jobs v)) d.events

abbrev pub kept_events : PrunePolicy → List EventRow → List EventRow
kept_events p events =
    if leb_ℤ p.max_events_per_job (pos 0)
    then events
    else keep (λ v. not (is_beyond p.max_events_per_job events v)) events

count-keep-not :
    {A : Type 0} (p : A → Bool) (xs : List A)
    → count p xs + length (keep (λ x. not (p x)) xs) ≡ length xs
unfolding count keep
count-keep-not p [] = omega arith
count-keep-not p (x ∷ xs) = ground (arith, count-keep-not p xs)

-- An action that succeeds, with what it returned and the world behind it.
record Succeeds {A : Type 0} (m : Exec A) (w : World) : Type 0 where
  value : A
  after : World
  runs : m w ≡ (ok value, after)

abbrev aged : PrunePolicy → Time → Db → PruneResult
aged p started d =
    if leb_ℤ p.max_job_age (pos 0)
    then record { jobs_removed = 0; events_removed = 0 }
    else record {
      jobs_removed = count (is_old (format (sub started p.max_job_age))) d.jobs;
      events_removed = count (of_old_job (format (sub started p.max_job_age)) d.jobs) d.events;
    }

abbrev aged_world : PrunePolicy → Time → World → World
aged_world p started w = record {
  db = record w.db { jobs = kept_jobs p started w.db; events = events_by_age p started w.db };
  ticks = if leb_ℤ p.max_job_age (pos 0) then w.ticks else suc (suc w.ticks);
}

abbrev trimmed_result : PrunePolicy → PruneResult → Db → PruneResult
trimmed_result p res d = if leb_ℤ p.max_events_per_job (pos 0) then res else record res {
  events_removed = res.events_removed + count (is_beyond p.max_events_per_job d.events) d.events;
}

abbrev trimmed_world : PrunePolicy → World → World
trimmed_world p w = record {
  db = record w.db { events = kept_events p w.db.events };
  ticks = if leb_ℤ p.max_events_per_job (pos 0) then w.ticks else suc w.ticks;
}

aged_count :
    (p : PrunePolicy) (started : Time) (d : Db)
    → (trimmed_result p
          (aged p started d)
          (record d { events = events_by_age p started d })).jobs_removed
        + length (kept_jobs p started d)
      ≡ length d.jobs
aged_count p started d =
    ground (arith, count-keep-not (is_old (format (sub started p.max_job_age))) d.jobs)

removed_count :
    (p : PrunePolicy) (started : Time) (d : Db)
    → (trimmed_result p
          (aged p started d)
          (record d { events = events_by_age p started d })).events_removed
        + length (kept_events p (events_by_age p started d))
      ≡ length d.events
removed_count p started d = ground (
  arith,
  count-keep-not (of_old_job (format (sub started p.max_job_age)) d.jobs) d.events,
  count-keep-not (is_beyond p.max_events_per_job d.events) d.events,
  count-keep-not (is_beyond p.max_events_per_job (events_by_age p started d))
      (events_by_age p started d),
)

bind_ok :
    {A B : Type 0} (m : Exec A) (f : A → Exec B) (w v : World) (a : A)
    → m w ≡ (ok a, v)
    → (m >>= f) w ≡ f a v
unfolding ◌>>=◌
bind_ok m f w v a h = rw h refl

module _ (e : Env) (quiet : (n : ℕ) → e.fails n ≡ false) where
  statement_ok :
      {A : Type 0} (f : Db → Result A × Db) (w : World) (a : A) (d : Db)
      → f w.db ≡ (ok a, d)
      → statement e f w ≡ (ok a, record { db = d; ticks = suc w.ticks })
  unfolding statement
  statement_ok f w a d h = rw (quiet w.ticks, h) refl

  bind_statement :
      {A B : Type 0} (f : Db → Result A × Db) (g : A → Exec B) (w : World) (a : A) (d : Db)
      → f w.db ≡ (ok a, d)
      → (statement e f >>= g) w ≡ g a (record { db = d; ticks = suc w.ticks })
  bind_statement f g w a d h = bind_ok (statement e f) g w _ a (statement_ok f w a d h)

  settle_ok :
      {A : Type 0} (before : Db) (a : A) (w : World) → settle e before (ok a) w ≡ (ok a, tick w)
  unfolding settle
  settle_ok before a w = rw (quiet w.ticks) refl

  age_step :
      (p : PrunePolicy) (started : Time) (w : World)
      → prune_age e started p w ≡ (ok (aged p started w.db), aged_world p started w)
  unfolding prune_age pure delete_old_events delete_old_jobs delete_events delete_jobs
  age_step p started w = elim (Bool-cases (leb_ℤ p.max_job_age (pos 0))) [
    | inl q ↦ rw q refl
    | inr q ↦ rw q (bind_statement _ _ w _ _ refl ∙ bind_statement _ _ _ _ _ refl)
  ]

  excess_step :
      (p : PrunePolicy) (res : PruneResult) (w : World)
      → prune_excess e p res w ≡ (ok (trimmed_result p res w.db), trimmed_world p w)
  unfolding prune_excess pure trim_events delete_events
  excess_step p res w = elim (Bool-cases (leb_ℤ p.max_events_per_job (pos 0))) [
    | inl q ↦ rw q refl
    | inr q ↦ rw q (bind_statement _ _ w _ _ refl)
  ]

  body_step :
      (p : PrunePolicy) (started : Time) (source : RetentionSource) (w : World)
      → let v = trimmed_world p (aged_world p started w) in
        let res = trimmed_result p (aged p started w.db) (aged_world p started w).db in
        prune_body e started p source w
        ≡ (ok res, record { db = (insert_run started source p res v.db).1; ticks = suc v.ticks })
  unfolding prune_body pure insert_run
  body_step p started source w =
      bind_ok (prune_age e started p) _ w _ _ (age_step p started w)
      ∙ bind_ok (prune_excess e p (aged p started w.db)) _ _ _ _ (excess_step p _ _)
      ∙ bind_statement _ _ _ _ _ refl

-- The tables behind a run, the counts and the history.
pub prune_tables :
    (e : Env) (p : PrunePolicy) (source : RetentionSource) (w : World)
    → ((n : ℕ) → e.fails n ≡ false)
    → is_empty_policy p ≡ false
    → is_known_source source ≡ true
    → let started = e.now w.ticks in
      let v = (prune_with_source e p source w).1 in
      (v.db.jobs ≡ kept_jobs p started w.db)
      × (v.db.events ≡ kept_events p (events_by_age p started w.db))
      × ((res : PruneResult) × ((prune_with_source e p source w).0 ≡ ok res)
          × (res.jobs_removed + length v.db.jobs ≡ length w.db.jobs)
          × (res.events_removed + length v.db.events ≡ length w.db.events)
          × (v.db.runs ≡ (insert_run started source p res w.db).1.runs))
unfolding prune_with_source ◌>>=◌ time_now transaction insert_run
prune_tables e p source w quiet limited known =
    rw (limited, known, quiet (suc w.ticks))
      (rw (body_step e quiet p (e.now w.ticks) source (record w { ticks = suc (suc w.ticks) })) (
        rw (settle_ok e quiet _)
          (refl, refl, (_, refl, aged_count p _ w.db, removed_count p _ w.db, refl))))

-- The clock's readings and the statements of a run are behind those before it.
pub prune-ticks :
    (e : Env) (p : PrunePolicy) (source : RetentionSource) (w : World)
    → ((n : ℕ) → e.fails n ≡ false)
    → w.ticks ≤ (prune_with_source e p source w).1.ticks
unfolding prune_with_source ◌>>=◌ time_now transaction
prune-ticks e p source w quiet = elim (Bool-cases (is_empty_policy p)) [
  | inl q ↦ rw q (omega arith)
  | inr q ↦ elim (Bool-cases (not (is_known_source source))) [
    | inl u ↦ rw (q, u) (omega arith)
    | inr u ↦
        rw (q, u, quiet (suc w.ticks))
          (rw (body_step e quiet p (e.now w.ticks) source (record w { ticks = suc (suc w.ticks) }))
            (rw (settle_ok e quiet _) (ground arith)))
  ]
]
