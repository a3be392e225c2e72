-- ===== src/Store/Queries.antt =====
-- The listing queries of internal/queue/sqlite.go: filters, search, counts, events and retention
-- activity.
pub mod Pages
pub mod Separate
pub mod Tally
use local_first_job_queue.Prelude.{
  ℕ, zero, suc, ◌+◌, ◌-◌, Bool, true, false, ◌&&◌, ◌||◌, not, Option, none, some, List, [], ◌∷◌,
  ◌++◌, Text, eq_text, compare_text, keep, count, take, drop, leb, ◌==◌, if◌then◌else◌, ℤ, pos,
  pos_part, leb_ℤ, Ordering,
}
use mathlib.Core.List.{reverse}
use local_first_job_queue.Prelude.Order.{◌then_by◌}
use local_first_job_queue.Clock.{Time, Stamp, parse, compare_stamp, is_gt}
use local_first_job_queue.Models.{
  Job, JobState, pending, leased, completed, failed, dead_letter, other_state, is_pending,
  RetentionSource, manual, auto, RetentionSourceCount, RetentionRun, Event,
}
use local_first_job_queue.Store.{
  Row, EventRow, RunRow, Db, Env, Exec, Result, ok, err, driver, bad_timestamp, statement, lift,
  pure, ◌>>=◌,
}
use local_first_job_queue.Store.Rows.{scan_all}
use local_first_job_queue.Store.Claim.{ready_at}

-- Empty fields match every job: `none` and the empty texts here.
pub record JobFilter : Type 0 where
  pub state : Option JobState
  pub kind : Text
  pub query : Text
  pub limit : ℤ
  pub offset : ℤ

abbrev pub eq_state : JobState → JobState → Bool
eq_state pending pending = true
eq_state leased leased = true
eq_state completed completed = true
eq_state failed failed = true
eq_state dead_letter dead_letter = true
eq_state (other_state a) (other_state b) = eq_text a b
eq_state _ _ = false

abbrev pub lower : ℕ → ℕ
lower c = if leb b'A' c && leb c b'Z' then c + 32 else c

any_suffix : (Text → Bool) → Text → Bool
any_suffix p [] = p []
any_suffix p (c ∷ cs) = p (c ∷ cs) || any_suffix p cs

one_more : (Text → Bool) → (ℕ → Bool) → Text → Bool
one_more p q [] = false
one_more p q (c ∷ cs) = q c && p cs

-- `LIKE`: `%` stands for any text, `_` for one byte, and letters match in either case.
unfoldable pub like : Text → Text → Bool
unfolding any_suffix one_more
like [] [] = true
like [] (c ∷ cs) = false
like (p ∷ ps) t =
    if p == b'%'
    then any_suffix (like ps) t
    else one_more (like ps) (λ c. p == b'_' || lower p == lower c) t

abbrev pub like_optional : Text → Option Text → Bool
like_optional p none = false
like_optional p (some t) = like p t

abbrev pub state_clause : Option JobState → Row → Bool
state_clause none r = true
state_clause (some s) r = eq_state r.state s

abbrev pub kind_clause : Text → Row → Bool
kind_clause [] r = true
kind_clause (c ∷ cs) r = eq_text r.kind (c ∷ cs)

abbrev pub query_clause : Text → Row → Bool
query_clause [] r = true
query_clause (c ∷ cs) r =
    let pattern = b'%' ∷ ((c ∷ cs) ++ b'%' ∷ []) in
    like pattern r.id || like_optional pattern r.idempotency_key || like pattern r.payload

-- `buildJobFilter`
unfoldable pub matches : JobFilter → Row → Bool
unfolding like
matches f r = state_clause f.state r && kind_clause f.kind r && query_clause f.query r

unfoldable pub insert_by : (Row → Row → Ordering) → Row → List Row → List Row
insert_by cmp r [] = r ∷ []
insert_by cmp r (s ∷ ss) = if is_gt (cmp r s) then s ∷ insert_by cmp r ss else r ∷ s ∷ ss

-- `ORDER BY`
unfoldable pub sort_by : (Row → Row → Ordering) → List Row → List Row
unfolding insert_by
sort_by cmp [] = []
sort_by cmp (r ∷ rs) = insert_by cmp r (sort_by cmp rs)

-- `created_at DESC, id ASC`
abbrev pub newest_first : Row → Row → Ordering
newest_first a b = compare_stamp b.created_at a.created_at then_by compare_text a.id b.id

-- `LIMIT ?`, added for a positive limit.
abbrev pub limited : ℤ → List Row → List Row
limited limit rows = if leb_ℤ limit (pos 0) then rows else take (pos_part limit) rows

-- `OFFSET ?`, added for a positive offset.
abbrev pub skipped : ℤ → List Row → List Row
skipped offset rows = drop (pos_part offset) rows

-- SQLite's grammar has OFFSET only behind LIMIT, so an offset alone is a syntax error.
unfoldable pub select_page : JobFilter → Db → Result (List Row) × Db
unfolding sort_by matches
select_page f d =
    if leb_ℤ f.limit (pos 0) && not (leb_ℤ f.offset (pos 0)) then (err driver, d) else (
      ok (limited f.limit (skipped f.offset (sort_by newest_first (keep (matches f) d.jobs)))),
      d,
    )

-- `SearchJobs`
unfoldable pub search_jobs : Env → JobFilter → Exec (List Job)
unfolding select_page
search_jobs e f = do rows ← statement e (select_page f); lift (scan_all rows)

unfoldable pub select_count : JobFilter → Db → Result ℕ × Db
unfolding matches
select_count f d = (ok (count (matches f) d.jobs), d)

-- `CountJobs`
unfoldable pub count_jobs : Env → JobFilter → Exec ℕ
unfolding select_count
count_jobs e f = statement e (select_count f)

-- `GetQueueStats`: the map as a function, where a state without jobs reads as 0.
unfoldable pub queue_stats : Db → JobState → ℕ
queue_stats d s = count (λ r. eq_state r.state s) d.jobs

unfoldable pub get_queue_stats : Env → Exec (JobState → ℕ)
unfolding queue_stats
get_queue_stats e = statement e (λ d. (ok (queue_stats d), d))

unfoldable pub event_of : EventRow → Option Time → Result Event
event_of v none = err bad_timestamp
event_of v (some t) = ok (record {
  id = pos v.id;
  job_id = v.job_id;
  event_type = v.event_type;
  metadata = v.metadata;
  timestamp = t;
})

-- `scanEvents`, which stops at the first row that does not parse.
unfoldable pub scan_events : List EventRow → Result (List Event)
unfolding event_of
scan_events [] = ok []
scan_events (v ∷ vs) = elim (event_of v (parse v.timestamp)) [
  | err x ↦ err x
  | ok a ↦ elim (scan_events vs) [ err x ↦ err x | ok more ↦ ok (a ∷ more) ]
]

unfoldable pub select_job_events : Text → Db → Result (List EventRow) × Db
select_job_events id d = (ok (keep (λ v. eq_text v.job_id id) d.events), d)

-- `GetJobEvents`, in append order
unfoldable pub get_job_events : Env → Text → Exec (List Event)
unfolding scan_events select_job_events
get_job_events e id = do rows ← statement e (select_job_events id); lift (scan_events rows)

unfoldable pub select_all_events : Db → Result (List EventRow) × Db
select_all_events d = (ok (take 1000 (reverse d.events)), d)

-- `GetAllEvents`: the newest thousand, newest first.
unfoldable pub get_all_events : Env → Exec (List Event)
unfolding scan_events select_all_events
get_all_events e = do rows ← statement e select_all_events; lift (scan_events rows)

-- The first of the pending rows by ready time.
earlier : Row → Option Stamp → Option Stamp
earlier r none = some (ready_at r)
earlier r (some t) = if is_gt (compare_stamp (ready_at r) t) then some t else some (ready_at r)

unfoldable pub oldest_ready : List Row → Option Stamp
unfolding earlier
oldest_ready [] = none
oldest_ready (r ∷ rs) =
    let rest = oldest_ready rs in if is_pending r.state then earlier r rest else rest

parse_ready : Option Stamp → Result (Option Time)
parse_ready none = ok none
parse_ready (some s) = elim (parse s) [ none ↦ err bad_timestamp | some t ↦ ok (some t) ]

-- `GetOldestPendingReadyTime`
unfoldable pub get_oldest_pending_ready_time : Env → Exec (Option Time)
unfolding oldest_ready parse_ready
get_oldest_pending_ready_time e = do
  s ← statement e (λ d. (ok (oldest_ready d.jobs), d))
  lift (parse_ready s)

abbrev pub eq_source : RetentionSource → RetentionSource → Bool
eq_source manual manual = true
eq_source auto auto = true
eq_source _ _ = false

sum_by : (RunRow → ℕ) → List RunRow → ℕ
sum_by f [] = 0
sum_by f (r ∷ rs) = f r + sum_by f rs

-- What the runs of one source did.
unfoldable pub source_count : List RunRow → RetentionSource → RetentionSourceCount
unfolding sum_by
source_count runs s =
    let mine = keep (λ (r : RunRow). eq_source r.source s) runs in
    record {
      source = s;
      runs = count (λ (r : RunRow). true) mine;
      jobs_removed = sum_by (λ r. r.jobs_removed) mine;
      events_removed = sum_by (λ r. r.events_removed) mine;
    }

-- `GetRetentionStats`, in the fixed order of the sources
unfoldable pub get_retention_stats : Env → Exec (List RetentionSourceCount)
unfolding source_count
get_retention_stats e =
    statement e (λ d. (ok (source_count d.runs manual ∷ source_count d.runs auto ∷ []), d))

run_with : RunRow → Option Time → Result RetentionRun
run_with r none = err bad_timestamp
run_with r (some t) = ok (record {
  id = r.id;
  started_at = t;
  source = r.source;
  max_job_age = r.max_job_age;
  max_events_per_job = r.max_events_per_job;
  jobs_removed = r.jobs_removed;
  events_removed = r.events_removed;
})

-- `scanRetentionRun`
unfoldable pub scan_retention_run : RunRow → Result RetentionRun
unfolding run_with
scan_retention_run r = run_with r (parse r.started_at)

scan_runs : List RunRow → Result (List RetentionRun)
scan_runs [] = ok []
scan_runs (r ∷ rs) = elim (scan_retention_run r) [
  | err x ↦ err x
  | ok a ↦ elim (scan_runs rs) [ err x ↦ err x | ok more ↦ ok (a ∷ more) ]
]

newest_run : List RunRow → Result (Option RetentionRun)
newest_run [] = ok none
newest_run (r ∷ rs) = elim (scan_retention_run r) [ err x ↦ err x | ok a ↦ ok (some a) ]

select_runs : ℕ → Db → Result (List RunRow) × Db
select_runs n d = (ok (take n (reverse d.runs)), d)

-- `GetLastRetentionRun`
unfoldable pub get_last_retention_run : Env → Exec (Option RetentionRun)
unfolding newest_run scan_retention_run select_runs
get_last_retention_run e = do rows ← statement e (select_runs 1); lift (newest_run rows)

-- `RecentRetentionRuns`, newest first
unfoldable pub recent_retention_runs : Env → ℤ → Exec (List RetentionRun)
unfolding scan_runs scan_retention_run select_runs
recent_retention_runs e limit =
    if leb_ℤ limit (pos 0)
    then pure []
    else do rows ← statement e (select_runs (pos_part limit)); lift (scan_runs rows)
