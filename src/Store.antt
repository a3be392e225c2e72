-- ===== src/Store.antt =====
-- internal/queue/sqlite.go: the tables, the actions that read and write them, and what the store
-- takes from outside: the clock, the random source, and the SQLite driver's failures.
--
-- A column keeps its name. Each action is one SQL statement, or one reading of the clock or of the
-- random source; `ticks` counts them, and an `Env` says how each one turns out. A statement that
-- fails changes nothing.
pub mod Keeps
pub mod Rows
pub mod Claim
pub mod Insert
pub mod Changes
pub mod Recover
pub mod Precedence
pub mod Prune
pub mod Queries
pub mod Listings
pub mod Readable
pub mod Attempts
pub mod Schema
pub mod Counts
pub mod Transactions
pub mod Columns
pub mod Lookup
pub mod ClaimOrder
pub mod Retention
pub mod Removal
pub mod Kept
use local_first_job_queue.Prelude.{
  ℕ, suc, ◌+◌, Bool, Option, none, some, List, [], Text, if◌then◌else◌, ℤ,
}
use local_first_job_queue.Clock.{Time, Duration, Stamp}
use local_first_job_queue.Models.{JobState, EventType, Metadata, RetentionSource}

-- A row of `jobs`.
pub record Row : Type 0 where
  pub id : Text
  pub kind : Text
  pub payload : Text
  pub state : JobState
  pub retry_count : ℤ
  pub max_attempts : ℤ
  pub priority : ℤ
  pub idempotency_key : Option Text
  pub created_at : Stamp
  pub updated_at : Stamp
  pub leased_until : Option Stamp
  pub run_at : Option Stamp
  pub lease_token : Option Text

-- A row of `events`.
pub record EventRow : Type 0 where
  pub id : ℕ
  pub job_id : Text
  pub event_type : EventType
  pub metadata : Option Metadata
  pub timestamp : Stamp

-- A row of `retention_runs`.
pub record RunRow : Type 0 where
  pub id : ℕ
  pub started_at : Stamp
  pub source : RetentionSource
  pub max_job_age : ℤ
  pub max_events_per_job : ℤ
  pub jobs_removed : ℕ
  pub events_removed : ℕ

-- The tables in rowid order. An AUTOINCREMENT id is one more than any given before.
pub record Db : Type 0 where
  pub jobs : List Row
  pub events : List EventRow
  pub next_event : ℕ
  pub runs : List RunRow
  pub next_run : ℕ

abbrev pub empty : Db
empty = record { jobs = []; events = []; next_event = 1; runs = []; next_run = 1 }

pub record World : Type 0 where
  pub db : Db
  pub open db use *
  pub ticks : ℕ

-- `now n`, `random n` and `fails n` are the clock's reading, the text made from the random bytes
-- (`none`: the source failed) and whether the statement fails, at action `n`. `age_points a b d` is
-- SQLite's value of `CAST((julianday(a) - julianday(b)) * 86400.0 / d AS INTEGER)`, with `d` the
-- aging interval, a floating-point computation of the engine.
pub record Env : Type 0 where
  pub now : ℕ → Time
  pub random : ℕ → Option Text
  pub fails : ℕ → Bool
  pub age_points : Stamp → Stamp → Duration → ℤ
  pub aging_interval : Duration

-- The errors that callers tell apart; wrapping by `fmt.Errorf` keeps the wrapped error.
pub data Error : Type 0 where
  driver random_source bad_timestamp duplicate_id : Error
  no_rows not_found lease_lost not_leased not_pending not_dead_lettered : Error
  unknown_source conflict_without_job : Error

pub data Result {ℓ} (A : Type ℓ) : Type ℓ where
  ok : A → Result A
  err : Error → Result A

-- What an action wrote before an error stays written.
abbrev pub Exec : Type 0 → Type 0
Exec A = World → Result A × World

unfoldable pub pure : {A : Type 0} → A → Exec A
pure a w = (ok a, w)

unfoldable pub raise : {A : Type 0} → Error → Exec A
raise e w = (err e, w)

unfoldable pub lift : {A : Type 0} → Result A → Exec A
lift r w = (r, w)

abbrev pub continue : {A B : Type 0} → Result A → (A → Exec B) → Exec B
continue (ok a) f w = f a w
continue (err x) f w = (err x, w)

infixl 10 ◌>>=◌ ◌>>◌
-- Opening this opens `pure`, `raise` and `lift` too.
unfoldable pub ◌>>=◌ : {A B : Type 0} → Exec A → (A → Exec B) → Exec B
unfolding pure raise lift
◌>>=◌ m f w = let (r, v) = m w in continue r f v

abbrev pub ◌>>◌ : {A B : Type 0} → Exec A → Exec B → Exec B
m >> n = m >>= λ _. n

-- `time.Now().UTC()`
unfoldable pub time_now : Env → Exec Time
time_now e w = (ok (e.now w.ticks), record w { ticks = suc w.ticks })

or_fail : {A : Type 0} → Option A → Error → Result A
or_fail none x = err x
or_fail (some a) x = ok a

-- `newID` and `newLeaseToken`
unfoldable pub new_text : Env → Exec Text
unfolding or_fail
new_text e w = (or_fail (e.random w.ticks) random_source, record w { ticks = suc w.ticks })

-- One statement, which runs whole or fails and leaves the tables as they were.
unfoldable pub statement : {A : Type 0} → Env → (Db → Result A × Db) → Exec A
statement e f w =
    let (r, d) = f w.db in
    if e.fails w.ticks
    then (err driver, record w { ticks = suc w.ticks })
    else (r, record { db = d; ticks = suc w.ticks })
