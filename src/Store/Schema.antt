-- ===== src/Store/Schema.antt =====
-- The tables that `NewSQLiteStore` makes: `migrate` and `ensureColumn` of internal/queue/sqlite.go.
--
-- A table is its columns, a name and a type each; PRAGMA settings and indexes have no part in it.
pub mod Complete
pub mod Migrated
use local_first_job_queue.Prelude.{
  ℕ, suc, Bool, true, false, ◌||◌, Option, none, some, List, [], ◌∷◌, ◌++◌, Text, bytes, eq_text,
  if◌then◌else◌, pos, ◌*◌,
}
use local_first_job_queue.Clock.{Duration, nanos}

pub record Column : Type 0 where
  pub name : Text
  pub column_type : Text

pub record Tables : Type 0 where
  pub jobs : Option (List Column)
  pub events : Option (List Column)
  pub retention_runs : Option (List Column)

abbrev pub column : Text → Text → Column
column name column_type = record { name = name; column_type = column_type }

abbrev pub priority_column : Column
priority_column = column (bytes "priority") (bytes "INTEGER NOT NULL DEFAULT 0")

abbrev pub run_at_column : Column
run_at_column = column (bytes "run_at") (bytes "TEXT")

abbrev pub lease_token_column : Column
lease_token_column = column (bytes "lease_token") (bytes "TEXT")

abbrev pub jobs_columns : List Column
jobs_columns =
    column (bytes "id") (bytes "TEXT PRIMARY KEY")
    ∷ column (bytes "kind") (bytes "TEXT NOT NULL")
    ∷ column (bytes "payload") (bytes "TEXT NOT NULL")
    ∷ column (bytes "state") (bytes "TEXT NOT NULL DEFAULT 'pending'")
    ∷ column (bytes "retry_count") (bytes "INTEGER NOT NULL DEFAULT 0")
    ∷ column (bytes "max_attempts") (bytes "INTEGER NOT NULL DEFAULT 3")
    ∷ column (bytes "priority") (bytes "INTEGER NOT NULL DEFAULT 0")
    ∷ column (bytes "idempotency_key") (bytes "TEXT UNIQUE")
    ∷ column (bytes "created_at") (bytes "TEXT NOT NULL")
    ∷ column (bytes "updated_at") (bytes "TEXT NOT NULL")
    ∷ column (bytes "leased_until") (bytes "TEXT")
    ∷ column (bytes "run_at") (bytes "TEXT")
    ∷ column (bytes "lease_token") (bytes "TEXT")
    ∷ []

abbrev pub events_columns : List Column
events_columns =
    column (bytes "id") (bytes "INTEGER PRIMARY KEY AUTOINCREMENT")
    ∷ column (bytes "job_id") (bytes "TEXT NOT NULL")
    ∷ column (bytes "event_type") (bytes "TEXT NOT NULL")
    ∷ column (bytes "metadata") (bytes "TEXT")
    ∷ column (bytes "timestamp") (bytes "TEXT NOT NULL")
    ∷ []

abbrev pub runs_columns : List Column
runs_columns =
    column (bytes "id") (bytes "INTEGER PRIMARY KEY AUTOINCREMENT")
    ∷ column (bytes "started_at") (bytes "TEXT NOT NULL")
    ∷ column (bytes "source") (bytes "TEXT NOT NULL")
    ∷ column (bytes "max_job_age") (bytes "TEXT NOT NULL")
    ∷ column (bytes "max_events_per_job") (bytes "INTEGER NOT NULL")
    ∷ column (bytes "jobs_removed") (bytes "INTEGER NOT NULL")
    ∷ column (bytes "events_removed") (bytes "INTEGER NOT NULL")
    ∷ []

-- `CREATE TABLE IF NOT EXISTS`
abbrev pub created : List Column → Option (List Column) → Option (List Column)
created columns none = some columns
created columns (some old) = some old

abbrev pub create_jobs : Tables → Tables
create_jobs t = record t { jobs = created jobs_columns t.jobs }

abbrev pub create_events : Tables → Tables
create_events t = record t { events = created events_columns t.events }

abbrev pub create_runs : Tables → Tables
create_runs t = record t { retention_runs = created runs_columns t.retention_runs }

abbrev pub stay : Tables → Tables
stay t = t

unfoldable pub has_column : Text → List Column → Bool
has_column name [] = false
has_column name (c ∷ cs) = eq_text c.name name || has_column name cs

-- A statement that `migrate` sends, or a call of `ensureColumn` on the jobs.
pub data Action : Type 0 where
  creates_jobs creates_events creates_runs : Action
  -- A PRAGMA setting or an index.
  settles : Action
  ensures : Column → Action

-- The loop over `queries`, the three calls of `ensureColumn` and the loop over `indexes`.
abbrev pub actions : List Action
actions =
    creates_jobs
    ∷ creates_events
    ∷ creates_runs
    ∷ settles
    ∷ settles
    ∷ settles
    ∷ ensures priority_column
    ∷ ensures run_at_column
    ∷ ensures lease_token_column
    ∷ settles
    ∷ settles
    ∷ settles
    ∷ settles
    ∷ settles
    ∷ settles
    ∷ settles
    ∷ []

-- One statement, which runs or fails: the tables, whether it ran, and the number of the next one.
abbrev pub Ran : Type 0
Ran = Bool × Tables × ℕ

abbrev pub exec : (ℕ → Bool) → (Tables → Tables) → Tables → ℕ → Ran
exec fails f t n = if fails n then (false, t, suc n) else (true, f t, suc n)

abbrev pub add_column : Column → Tables → Tables
add_column c t = record t { jobs = elim t.jobs [ none ↦ none | some cs ↦ some (cs ++ c ∷ []) ] }

-- `ALTER TABLE .. ADD COLUMN`, which fails on a table that is not there.
unfoldable pub alter : (ℕ → Bool) → Column → Option (List Column) → Tables → ℕ → Ran
alter fails c none t n = (false, t, suc n)
alter fails c (some cs) t n =
    if has_column c.name cs then (true, t, n) else exec fails (add_column c) t n

-- `ensureColumn`: the query, and the column where the table has none of the name.
unfoldable pub ensure_column : (ℕ → Bool) → Column → Tables → ℕ → Ran
unfolding alter has_column
ensure_column fails c t n = if fails n then (false, t, suc n) else alter fails c t.jobs t (suc n)

unfoldable pub act : (ℕ → Bool) → Action → Tables → ℕ → Ran
unfolding ensure_column
act fails creates_jobs t n = exec fails create_jobs t n
act fails creates_events t n = exec fails create_events t n
act fails creates_runs t n = exec fails create_runs t n
act fails settles t n = exec fails stay t n
act fails (ensures c) t n = ensure_column fails c t n

unfoldable pub act_all : (ℕ → Bool) → List Action → Tables → ℕ → Ran
unfolding act
act_all fails [] t n = (true, t, n)
act_all fails (a ∷ rest) t n =
    let (done, u, m) = act fails a t n in
    let after = act_all fails rest u m in if done then after else (false, u, m)

-- `migrate`
unfoldable pub migrate : (ℕ → Bool) → Tables → Bool × Tables
unfolding act_all
migrate fails t = let (done, u, n) = act_all fails actions t 0 in (done, u)

-- A `StoreOption` changes the one field of `storeConfig`.
abbrev pub StoreOption : Type 0
StoreOption = Duration → Duration

abbrev pub with_aging_interval : Duration → StoreOption
with_aging_interval d c = d

abbrev pub default_aging_interval : Duration
default_aging_interval = pos (30 * nanos)

abbrev pub apply_store_options : List StoreOption → StoreOption
apply_store_options [] c = c
apply_store_options (o ∷ os) c = apply_store_options os (o c)

-- The aging interval of `NewSQLiteStore`, which is off where no option sets it.
abbrev pub configured_aging : List StoreOption → Duration
configured_aging opts = apply_store_options opts (pos 0)
