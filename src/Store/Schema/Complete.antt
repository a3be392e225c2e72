-- ===== src/Store/Schema/Complete.antt =====
-- The tables that a migration leaves behind, `migrate` of internal/queue/sqlite.go, by the names and
-- types of their columns.
use local_first_job_queue.Prelude.{
  ℕ, ◌≡◌, ap, inl, inr, Bool, true, false, Option, none, some, List, [], ◌∷◌, ◌++◌, Text, bytes,
  eq_text, eq_text_iff, Bool-cases, sym,
}
use mathlib.Core.Path.{subst}
use local_first_job_queue.Store.Schema.{
  Column, Tables, Action, creates_jobs, creates_events, creates_runs, settles, ensures,
  priority_column, run_at_column, lease_token_column, column, has_column, created, actions, act,
  act_all, migrate,
}
use local_first_job_queue.Store.Schema.Migrated.{Grown, Grows, act_all-Grows, act_all-Established}

-- The columns of a new table of jobs.
abbrev pub jobs_table : List Column
jobs_table =
    column (bytes "id") (bytes "TEXT PRIMARY KEY")
    ∷ column (bytes "kind") (bytes "TEXT NOT NULL")
    ∷ column (bytes "payload") (bytes "TEXT NOT NULL")
    ∷ column (bytes "state") (bytes "TEXT NOT NULL DEFAULT 'pending'")
    ∷ column (bytes "retry_count") (bytes "INTEGER NOT NULL DEFAULT 0")
    ∷ column (bytes "max_attempts") (bytes "INTEGER NOT NULL DEFAULT 3")
    ∷ column (bytes "priority") (bytes "INTEGER NOT NULL DEFAULT 0")
    ∷ column (bytes "idempotency_key") (bytes "TEXT UNIQUE")
    ∷ column (bytes "created_at") (bytes "TEXT NOT NULL")
    ∷ column (bytes "updated_at") (bytes "TEXT NOT NULL")
    ∷ column (bytes "leased_until") (bytes "TEXT")
    ∷ column (bytes "run_at") (bytes "TEXT")
    ∷ column (bytes "lease_token") (bytes "TEXT")
    ∷ []

abbrev pub events_table : List Column
events_table =
    column (bytes "id") (bytes "INTEGER PRIMARY KEY AUTOINCREMENT")
    ∷ column (bytes "job_id") (bytes "TEXT NOT NULL")
    ∷ column (bytes "event_type") (bytes "TEXT NOT NULL")
    ∷ column (bytes "metadata") (bytes "TEXT")
    ∷ column (bytes "timestamp") (bytes "TEXT NOT NULL")
    ∷ []

abbrev pub runs_table : List Column
runs_table =
    column (bytes "id") (bytes "INTEGER PRIMARY KEY AUTOINCREMENT")
    ∷ column (bytes "started_at") (bytes "TEXT NOT NULL")
    ∷ column (bytes "source") (bytes "TEXT NOT NULL")
    ∷ column (bytes "max_job_age") (bytes "TEXT NOT NULL")
    ∷ column (bytes "max_events_per_job") (bytes "INTEGER NOT NULL")
    ∷ column (bytes "jobs_removed") (bytes "INTEGER NOT NULL")
    ∷ column (bytes "events_removed") (bytes "INTEGER NOT NULL")
    ∷ []

-- The columns of the old table, or those of a new one.
abbrev pub columns_or : List Column → Option (List Column) → List Column
columns_or new none = new
columns_or new (some old) = old

-- A table that begins with some columns.
abbrev pub BeginsWith : List Column → Option (List Column) → Type 0
BeginsWith cs o = (more : List Column) × (o ≡ some (cs ++ more))

-- A table that has a column of a name.
abbrev pub HasColumn : Text → Option (List Column) → Type 0
HasColumn name o =
    (before : List Column) × (after : List Column) × (column_type : Text) × (o
      ≡ some (before ++ column name column_type ∷ after))

begins :
    (new : List Column) (o p : Option (List Column))
    → Grown (created new o) p
    → BeginsWith (columns_or new o) p
begins new none p g = g
begins new (some old) p g = g

found_column :
    (name : Text) (cs : List Column) → has_column name cs ≡ true → HasColumn name (some cs)
unfolding has_column
found_column name [] h = cc
found_column name (c ∷ cs) h = elim (Bool-cases (eq_text c.name name)) [
  | inl q ↦
      let same : c ≡ column name c.column_type =
        ap (λ n. column n c.column_type) ((eq_text_iff c.name name).0 q) in
      ([], cs, c.column_type, ap (λ x. some (x ∷ cs)) same)
  | inr q ↦
      let (before, after, column_type, e) = found_column name cs (rw q at h) in
      (c ∷ before, after, column_type, ap (λ o. elim o [ none ↦ none | some xs ↦ some (c ∷ xs) ]) e)
]

has :
    (name : Text) (o : Option (List Column))
    → (cs : List Column) × (o ≡ some cs) × (has_column name cs ≡ true)
    → HasColumn name o
has name o (cs, e, h) = subst (λ p. HasColumn name p) (sym e) (found_column name cs h)

-- The tables after the three statements that create them.
abbrev with_tables : Tables → Tables
with_tables t = record {
  jobs = created jobs_table t.jobs;
  events = created events_table t.events;
  retention_runs = created runs_table t.retention_runs;
}

stopped : false ≡ true → ⊥
stopped e = cc

abbrev later_actions : List Action
later_actions =
    settles
    ∷ settles
    ∷ settles
    ∷ ensures priority_column
    ∷ ensures run_at_column
    ∷ ensures lease_token_column
    ∷ settles
    ∷ settles
    ∷ settles
    ∷ settles
    ∷ settles
    ∷ settles
    ∷ settles
    ∷ []

-- A list of statements that begins with those three.
after_creation :
    (fails : ℕ → Bool) (rest : List Action) (t : Tables)
    → (act_all fails (creates_jobs ∷ creates_events ∷ creates_runs ∷ rest) t 0).0 ≡ true
    → let u = (act_all fails (creates_jobs ∷ creates_events ∷ creates_runs ∷ rest) t 0).1 in
      Grows (with_tables t) u
unfolding act_all act
after_creation fails rest t done = elim (Bool-cases (fails 0)) [
  | inl p ↦ absurd (stopped (rw p at done))
  | inr p ↦ elim (Bool-cases (fails 1)) [
    | inl q ↦ absurd (stopped (rw (p, q) at done))
    | inr q ↦ elim (Bool-cases (fails 2)) [
      | inl r ↦ absurd (stopped (rw (p, q, r) at done))
      | inr r ↦ rw (p, q, r) (act_all-Grows fails rest (with_tables t) 3)
    ]
  ]
]

-- A migration that succeeds leaves the three tables. One that was there begins with the columns that
-- it had, and a new one with those of its list; the jobs have a priority, a time to run at and a
-- lease token, also where the table is from before these columns.
pub migrate_lem :
    (fails : ℕ → Bool) (t : Tables)
    → (migrate fails t).0 ≡ true
    → let u = (migrate fails t).1 in
      BeginsWith (columns_or jobs_table t.jobs) u.jobs
      × BeginsWith (columns_or events_table t.events) u.events
      × BeginsWith (columns_or runs_table t.retention_runs) u.retention_runs
      × HasColumn (bytes "priority") u.jobs
      × HasColumn (bytes "run_at") u.jobs
      × HasColumn (bytes "lease_token") u.jobs
unfolding migrate
migrate_lem fails t done =
    let (jobs, events, runs) = after_creation fails later_actions t done in
    let ensured = (act_all-Established fails actions t 0 done).1.1.1.1.1.1 in
    (
      begins jobs_table t.jobs _ jobs,
      begins events_table t.events _ events,
      begins runs_table t.retention_runs _ runs,
      has (bytes "priority") _ ensured.0,
      has (bytes "run_at") _ ensured.1.0,
      has (bytes "lease_token") _ ensured.1.1.0,
    )
