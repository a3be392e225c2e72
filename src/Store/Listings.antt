-- ===== src/Store/Listings.antt =====
-- The whole-table listings of internal/queue/sqlite.go, and `Inspect` of internal/queue/queue.go.
--
-- Where an `ORDER BY` leaves a tie, the rows stay in the order of the table.
use local_first_job_queue.Prelude.{
  ℕ, Ordering, Bool, true, ◌&&◌, Option, none, some, List, [], ◌∷◌, Text, eq_text, compare,
  compare_text, keep, if◌then◌else◌,
}
use mathlib.Core.List.{map}
use local_first_job_queue.Prelude.Order.{◌then_by◌}
use local_first_job_queue.Clock.{format, compare_stamp, is_lt, is_gt}
use local_first_job_queue.Models.{Job, JobState, Event, is_pending, is_leased}
use local_first_job_queue.Store.{
  Row, EventRow, Db, Env, Exec, Result, ok, statement, time_now, lift, pure, ◌>>=◌,
}
use local_first_job_queue.Store.Rows.{scan_all}
use local_first_job_queue.Store.Claim.{pending_order}
use local_first_job_queue.Store.Prune.{is_listed}
use local_first_job_queue.Store.Queries.{
  state_clause, kind_clause, sort_by, scan_events, get_all_events, get_queue_stats,
}

-- `queryJobs` with a filter and an order
unfoldable pub query_jobs : Env → (Row → Bool) → (Row → Row → Ordering) → Exec (List Job)
unfolding sort_by
query_jobs e p order = do
  rows ← statement e (λ d. (ok (sort_by order (keep p d.jobs)), d))
  lift (scan_all rows)

-- `GetPendingJobs`
unfoldable pub get_pending_jobs : Env → Exec (List Job)
unfolding query_jobs pending_order
get_pending_jobs e = do
  now ← time_now e
  query_jobs e (λ r. is_pending r.state) (pending_order e (format now))

-- `GetLeasedJobs`
unfoldable pub get_leased_jobs : Env → Exec (List Job)
unfolding query_jobs
get_leased_jobs e =
    query_jobs e (λ r. is_leased r.state) (λ a b. compare_stamp a.created_at b.created_at)

-- `GetAllJobs`
unfoldable pub get_all_jobs : Env → Exec (List Job)
unfolding query_jobs
get_all_jobs e = query_jobs e (λ r. true) (λ a b. compare_stamp b.created_at a.created_at)

-- Empty fields match every job.
pub record HistoryFilter : Type 0 where
  pub state : Option JobState
  pub kind : Text

pub record JobHistory : Type 0 where
  pub job : Job
  pub events : List Event

-- `buildHistoryFilter`
unfoldable pub history_matches : HistoryFilter → Row → Bool
history_matches f r = state_clause f.state r && kind_clause f.kind r

-- `SELECT MIN(e.id) FROM events AS e WHERE e.job_id = jobs.id`
unfoldable pub first_event_id : Text → List EventRow → Option ℕ
first_event_id id [] = none
first_event_id id (v ∷ vs) =
    let rest = first_event_id id vs in if eq_text v.job_id id then some (least v.id rest) else rest
  where
    least : ℕ → Option ℕ → ℕ
    least n none = n
    least n (some m) = if is_lt (compare m n) then m else n

-- NULL comes first.
compare_optional : Option ℕ → Option ℕ → Ordering
compare_optional none none = Ordering.eq
compare_optional none (some n) = Ordering.lt
compare_optional (some m) none = Ordering.gt
compare_optional (some m) (some n) = compare m n

-- `created_at ASC, (SELECT MIN(e.id) ..) ASC, id ASC`
unfoldable pub history_order : List EventRow → Row → Row → Ordering
unfolding compare_optional first_event_id
history_order events a b =
    compare_stamp a.created_at b.created_at
    then_by compare_optional (first_event_id a.id events) (first_event_id b.id events)
    then_by compare_text a.id b.id

-- The join of the events with the jobs that the filter takes. Of its order, by job and by event
-- id, only the order of one job's events shows below, which is that of the table.
unfoldable pub select_history_events : HistoryFilter → Db → Result (List EventRow) × Db
unfolding history_matches is_listed
select_history_events f d =
    let listed = keep (history_matches f) d.jobs in
    (ok (keep (λ v. is_listed v.job_id listed) d.events), d)

abbrev pub history_of : List Event → Job → JobHistory
history_of events j = record {
  job = j;
  events = keep (λ (v : Event). eq_text v.job_id j.id) events;
}

-- The second query, which an empty list of jobs does without.
unfoldable pub with_events : Env → HistoryFilter → List Job → Exec (List JobHistory)
unfolding select_history_events scan_events
with_events e f [] = pure []
with_events e f (j ∷ js) = do
  rows ← statement e (select_history_events f)
  events ← lift (scan_events rows)
  pure (map (history_of events) (j ∷ js))

-- `GetJobHistories`
unfoldable pub get_job_histories : Env → HistoryFilter → Exec (List JobHistory)
unfolding sort_by history_matches history_order with_events
get_job_histories e f = do
  rows ←
      statement e
        (λ d. (ok (sort_by (history_order d.events) (keep (history_matches f) d.jobs)), d))
  jobs ← lift (scan_all rows)
  with_events e f jobs

-- A text into a sorted list of different texts.
insert_kind : Text → List Text → List Text
insert_kind k [] = k ∷ []
insert_kind k (x ∷ xs) =
    let rest = insert_kind k xs in
    if eq_text k x then x ∷ xs else if is_gt (compare_text k x) then x ∷ rest else k ∷ x ∷ xs

-- `SELECT DISTINCT kind FROM jobs ORDER BY kind`
unfoldable pub distinct_kinds : List Row → List Text
unfolding insert_kind
distinct_kinds [] = []
distinct_kinds (r ∷ rs) = insert_kind r.kind (distinct_kinds rs)

-- `GetKinds`
unfoldable pub get_kinds : Env → Exec (List Text)
unfolding distinct_kinds
get_kinds e = statement e (λ d. (ok (distinct_kinds d.jobs), d))

pub record QueueSnapshot : Type 0 where
  pub jobs : List Job
  pub events : List Event
  pub stats : JobState → ℕ

-- `Inspect`: three queries, between which other processes may write.
unfoldable pub inspect : Env → Exec QueueSnapshot
unfolding get_all_jobs get_all_events get_queue_stats
inspect e = do
  jobs ← get_all_jobs e
  events ← get_all_events e
  stats ← get_queue_stats e
  pure (record { jobs = jobs; events = events; stats = stats })
