-- ===== src/Cli/Demo.antt =====
-- The parts of internal/cli/demo.go that decide: the check of the exported histories, the check of
-- the aging order, the wait for an idle queue, and the figures that are printed.
--
-- `reflect.DeepEqual`, and what a line of the export decodes to, are parameters. Other processes
-- (here the worker that the demonstration starts) run lists of statements between the polls.
pub mod Verification
pub mod Idle
pub mod Names
use local_first_job_queue.Prelude.{
  ℕ, zero, suc, ◌+◌, ◌-◌, ◌/◌, ◌*◌, ◌==◌, ◌&&◌, Bool, true, false, not, Option, none, some, List,
  [], ◌∷◌, ◌++◌, Text, bytes, eq_text, ltb, leb, length, take, drop, map, if◌then◌else◌, ℤ, pos,
  ◌+ℤ◌, ◌<◌,
}
use local_first_job_queue.Clock.{Time, Duration, nanos, sub}
use local_first_job_queue.Models.{
  Job, JobState, pending, leased, completed, EventType, EventTypeCount, event_text, RetentionSource,
  manual, auto, RetentionSourceCount,
}
use local_first_job_queue.Store.{World, Env, Exec, Error, Result, ok, err, time_now, pure, ◌>>=◌}
use local_first_job_queue.Store.Queries.{get_retention_stats, get_queue_stats, eq_source}
use local_first_job_queue.Store.Counts.{get_event_type_counts}
use local_first_job_queue.Store.Listings.{
  HistoryFilter, JobHistory, get_job_histories, QueueSnapshot, inspect,
}
use local_first_job_queue.Queue.{EnqueueConfig, enqueue_defaults, enqueue, lease}
use local_first_job_queue.Queue.Options.{with_priority, with_run_at}
use local_first_job_queue.Statements.{Statement}
use local_first_job_queue.Worker.{others}
use local_first_job_queue.Archive.{Record, Line, VerificationReport, Issue, verify, valid}
use local_first_job_queue.Cli.{export_record}

-- How a segment of the demonstration ends: with the numbers that it prints, or with an error.
pub data Shown (A : Type 0) : Type 0 where
  shown : A → Shown A
  found_issues queue_changed not_leased_twice wrong_order : Shown A

pub record Verified : Type 0 where
  pub exported : ℕ
  pub verified : ℕ
  pub issues : ℕ

-- The two errors, in their order.
abbrev pub conclude : Bool → Bool → Verified → Shown Verified
conclude no_issues unchanged v =
    if not no_issues then found_issues else if not unchanged then queue_changed else shown v

abbrev pub all_histories : HistoryFilter
all_histories = record { state = none; kind = [] }

-- `showHistoryVerification`
unfoldable pub show_history_verification :
    (QueueSnapshot → QueueSnapshot → Bool) → (Record → Line) → Env → Exec (Shown Verified)
unfolding inspect get_job_histories verify valid
show_history_verification deep_equal read_back e = do
  before ← inspect e
  histories ← get_job_histories e all_histories
  let report = verify (map read_back (map export_record histories))
  after ← inspect e
  pure (
      conclude (valid report) (deep_equal before after) (record {
        exported = length histories;
        verified = report.valid_records;
        issues = length report.issues;
      }))

count_of_type : EventType → List EventTypeCount → ℕ
count_of_type t [] = 0
count_of_type t (c ∷ cs) =
    let rest = count_of_type t cs in
    if eq_text (event_text c.event_type) (event_text t) then c.total else rest

-- `countEvents`
unfoldable pub count_events : Env → EventType → Exec ℕ
unfolding get_event_type_counts count_of_type
count_events e t = do counts ← get_event_type_counts e; pure (count_of_type t counts)

abbrev pub aging : Duration
aging = pos (nanos / 10)

abbrev pub aged_config : Time → EnqueueConfig
aged_config now =
    with_run_at (sub now (pos (5 * (nanos / 10)))) (with_priority (pos 0) enqueue_defaults)

abbrev pub fresh_config : EnqueueConfig
fresh_config = with_priority (pos 1) enqueue_defaults

-- The checks on the two leases.
abbrev pub check_order : Job → Job → Option Job → Option Job → Shown (Text × Text)
check_order aged fresh (some first) (some second) =
    if not (eq_text first.id aged.id)
    then wrong_order
    else if not (eq_text second.id fresh.id)
    then wrong_order
    else shown (first.id, second.id)
check_order aged fresh _ _ = not_leased_twice

-- `showPriorityAging`, on a store whose aging interval is `aging`.
unfoldable pub show_priority_aging : Env → Text → Exec (Shown (Text × Text))
unfolding enqueue lease with_run_at with_priority
show_priority_aging e kind = do
  now ← time_now e
  aged ← enqueue e kind (bytes "{\"name\":\"aged\"}") (aged_config now)
  fresh ← enqueue e kind (bytes "{\"name\":\"fresh\"}") fresh_config
  first ← lease e kind (pos (60 * nanos))
  second ← lease e kind (pos (60 * nanos))
  pure (check_order aged fresh first second)

-- `time.Since(ready)`, from 0 on.
abbrev pub waited : Time → Job → ℕ
waited now j = elim j.run_at [ none ↦ now - j.created_at | some t ↦ now - t ]

-- `effectivePriority`, for an interval of `n` nanoseconds
unfoldable pub effective_priority : Time → Job → ℕ → ℤ
effective_priority now j n = j.priority +ℤ pos (waited now j / n)

sum_totals : List EventTypeCount → ℕ
sum_totals [] = 0
sum_totals (c ∷ cs) = c.total + sum_totals cs

abbrev pub completed_of : Result (JobState → ℕ) → ℕ
completed_of (ok stats) = stats completed
completed_of (err x) = 0

abbrev pub events_of : Result (List EventTypeCount) → ℕ
unfolding sum_totals
events_of (ok counts) = sum_totals counts
events_of (err x) = 0

-- `retentionCounts`, where a query that fails counts nothing.
unfoldable pub retention_counts : Env → World → (ℕ × ℕ) × World
unfolding get_queue_stats get_event_type_counts
retention_counts e w =
    let (stats, v) = get_queue_stats e w in
    let (counts, u) = get_event_type_counts e v in ((completed_of stats, events_of counts), u)

first_of : RetentionSource → List RetentionSourceCount → RetentionSourceCount
first_of s [] = record { source = s; runs = 0; jobs_removed = 0; events_removed = 0 }
first_of s (c ∷ cs) = let rest = first_of s cs in if eq_source c.source s then c else rest

-- `retentionActivity`
unfoldable pub retention_activity : Env → RetentionSource → Exec RetentionSourceCount
unfolding get_retention_stats first_of
retention_activity e s = do stats ← get_retention_stats e; pure (first_of s stats)

-- `shortID`
abbrev pub short_id : Text → Text
short_id id = if ltb 8 (length id) then take 8 id else id

starts_with : Text → Text → Bool
starts_with [] t = true
starts_with (a ∷ needle) [] = false
starts_with (a ∷ needle) (b ∷ t) = (a == b) && starts_with needle t

-- The text behind the first `needle`, which is not empty, if there is one.
unfoldable pub after_needle : Text → Text → Option Text
unfolding starts_with
after_needle needle [] = none
after_needle needle (c ∷ cs) =
    let rest = after_needle needle cs in
    if starts_with needle (c ∷ cs) then some (drop (length needle) (c ∷ cs)) else rest

with_head : ℕ → Option Text → Option Text
with_head c none = none
with_head c (some t) = some (c ∷ t)

-- The text before the first quote, if there is one.
unfoldable pub before_quote : Text → Option Text
unfolding with_head
before_quote [] = none
before_quote (c ∷ cs) =
    let rest = before_quote cs in if c == b'"' then some [] else with_head c rest

abbrev pub or_question : Option Text → Text
or_question none = b'?' ∷ []
or_question (some t) = t

abbrev pub then_before : Option Text → Option Text
then_before none = none
then_before (some t) = before_quote t

-- `payloadName`
unfoldable pub payload_name : Text → Text
unfolding after_needle before_quote
payload_name payload = or_question (then_before (after_needle (bytes "\"name\":\"") payload))

abbrev pub is_idle : QueueSnapshot → Bool
is_idle snap = (snap.stats pending == 0) && (snap.stats leased == 0)

-- One look at the queue, and the rest of the polls: an error goes on to the next.
abbrev pub look : Result QueueSnapshot → Exec Bool → Exec Bool
look (err x) rest v = rest v
look (ok snap) rest v = if is_idle snap then (ok true, v) else rest v

-- `waitUntilIdle`, with the statements of the worker before each poll; behind the last, `done` is
-- closed.
unfoldable pub wait_until_idle : Env → List (List Statement) → Exec Bool
unfolding inspect others
wait_until_idle e [] w = (ok false, w)
wait_until_idle e (ss ∷ polls) w =
    let (_, u) = others ss w in let (r, v) = inspect e u in look r (wait_until_idle e polls) v
