-- ===== src/Cli.antt =====
-- internal/cli: the commands on the store, and the order of their arguments.
--
-- Flags come as Go's flag package parses them: a record of values for each command. A command ends
-- with a refusal of its flags, with what it prints, or with an error of the queue; `NewSQLiteStore`
-- and the printing are left out.
pub mod Positional
pub mod Arguments
pub mod Scheduling
pub mod Serving
pub mod Exporting
pub mod Demo
use local_first_job_queue.Prelude.{
  ℕ, suc, Bool, true, false, ◌&&◌, ◌||◌, not, Option, none, some, List, [], ◌∷◌, ◌++◌, Text, bytes,
  eq_text, if◌then◌else◌, length, map, ℤ, pos, leb_ℤ, ltb_ℤ, ◌==◌,
}
use local_first_job_queue.Clock.{Time, Duration}
use local_first_job_queue.Models.{Job, JobState, Event, PrunePolicy, PruneResult}
use local_first_job_queue.Store.{World, Env, Exec, Error, Result, ok, err, time_now, pure, ◌>>=◌}
use local_first_job_queue.Store.Rows.{get_job}
use local_first_job_queue.Store.Prune.{prune}
use local_first_job_queue.Store.Queries.{get_job_events}
use local_first_job_queue.Store.Listings.{
  HistoryFilter, JobHistory, get_job_histories, QueueSnapshot, inspect,
}
use local_first_job_queue.Queue.{EnqueueConfig, enqueue_defaults, enqueue, RequeueConfig, requeue}
use local_first_job_queue.Queue.Options.{
  with_idempotency_key, with_max_attempts, with_priority, with_run_at, with_run_after,
  requeue_with_max_attempts, requeue_with_payload,
}
use local_first_job_queue.Archive.{Record, VerificationReport, Line, verify, valid}
use local_first_job_queue.Fixture.{load_sample_data}

pub data Refusal : Type 0 where
  usage payload_required two_run_times bad_run_at no_limit : Refusal

-- How a command ends.
pub data Ending (A : Type 0) : Type 0 where
  refused : Refusal → Ending A
  printed : A → Ending A
  queue_error : Error → Ending A
  -- The report is printed, and then the command fails.
  printed_but_failed : A → Ending A

abbrev pub Command : Type 0 → Type 0
Command A = World → Ending A × World

abbrev pub refuse : {A : Type 0} → Refusal → Command A
refuse r w = (refused r, w)

abbrev pub ending : {A : Type 0} → Result A → Ending A
ending (ok a) = printed a
ending (err x) = queue_error x

unfoldable pub run_command : {A : Type 0} → Exec A → Command A
run_command m w = let (r, v) = m w in (ending r, v)

-- The flag `-run-at`: empty, or what `time.Parse` makes of it.
pub data RunAt : Type 0 where
  absent unparsable : RunAt
  at : Time → RunAt

pub record EnqueueFlags : Type 0 where
  pub kind : Text
  pub payload : Text
  pub idempotency_key : Text
  pub max_attempts : ℤ
  pub priority : ℤ
  pub run_at : RunAt
  pub run_after : Duration

abbrev pub is_absent : RunAt → Bool
is_absent absent = true
is_absent _ = false

abbrev pub is_zero : Duration → Bool
is_zero (pos n) = n == 0
is_zero _ = false

unfoldable pub with_key : Text → EnqueueConfig → EnqueueConfig
unfolding with_idempotency_key
with_key [] c = c
with_key (k ∷ ks) c = with_idempotency_key (k ∷ ks) c

unfoldable pub with_run_time : Time → EnqueueFlags → EnqueueConfig → EnqueueConfig
unfolding with_run_at with_run_after
with_run_time now f c = elim f.run_at [
  | at t ↦ with_run_at t c
  | _ ↦ if is_zero f.run_after then c else with_run_after now f.run_after c
]

-- The options of `Enqueue`, in their order, at the time at which they are applied.
unfoldable pub enqueue_options : Time → EnqueueFlags → EnqueueConfig
unfolding with_key with_run_time with_max_attempts with_priority
enqueue_options now f = with_run_time now f (
    with_key f.idempotency_key
      (with_priority f.priority (with_max_attempts f.max_attempts enqueue_defaults)))

unfoldable pub enqueue_now : Env → EnqueueFlags → Exec Job
unfolding enqueue enqueue_options
enqueue_now e f = do now ← time_now e; enqueue e f.kind f.payload (enqueue_options now f)

abbrev pub is_empty : Text → Bool
is_empty [] = true
is_empty (c ∷ cs) = false

abbrev pub is_unparsable : RunAt → Bool
is_unparsable unparsable = true
is_unparsable _ = false

-- `Enqueue`
unfoldable pub enqueue_command : Env → EnqueueFlags → Command Job
unfolding run_command enqueue_now
enqueue_command e f =
    if is_empty f.payload
    then refuse payload_required
    else if not (is_absent f.run_at) && not (is_zero f.run_after)
    then refuse two_run_times
    else if is_unparsable f.run_at
    then refuse bad_run_at
    else run_command (enqueue_now e f)

unfoldable pub requeue_options : ℤ → Text → RequeueConfig
unfolding requeue_with_max_attempts requeue_with_payload
requeue_options n payload =
    let kept : RequeueConfig = record { max_attempts = pos 0; payload = none } in
    let budgeted = if ltb_ℤ (pos 0) n then requeue_with_max_attempts n kept else kept in
    if is_empty payload then budgeted else requeue_with_payload payload budgeted

-- `Requeue`, with the positional arguments.
unfoldable pub requeue_command : Env → ℤ → Text → List Text → Command Job
unfolding run_command requeue requeue_options
requeue_command e n payload [] = refuse usage
requeue_command e n payload (id ∷ ids) = run_command (requeue e id (requeue_options n payload))

-- `Prune`
unfoldable pub prune_command : Env → PrunePolicy → Command PruneResult
unfolding run_command prune
prune_command e p =
    if leb_ℤ p.max_job_age (pos 0) && leb_ℤ p.max_events_per_job (pos 0)
    then refuse no_limit
    else run_command (prune e p)

job_history : Env → Text → Exec (Job × List Event)
unfolding get_job get_job_events
job_history e id = do j ← get_job e id; events ← get_job_events e id; pure (j, events)

-- `History`, with the positional arguments.
unfoldable pub history_command : Env → List Text → Command (Job × List Event)
unfolding run_command job_history
history_command e [] = refuse usage
history_command e (id ∷ ids) = run_command (job_history e id)

abbrev pub export_record : JobHistory → Record
export_record h = record { schema_version = pos 1; job = h.job; events = h.events }

exported : Env → HistoryFilter → Exec (List Record)
unfolding get_job_histories
exported e f = do histories ← get_job_histories e f; pure (map export_record histories)

-- `Export` and `writeHistoryExport`, of an output that takes every record.
unfoldable pub export_command : Env → HistoryFilter → List Text → Command (List Record)
unfolding run_command exported
export_command e f [] = run_command (exported e f)
export_command e f (a ∷ args) = refuse usage

-- `Verify`: a report with issues makes the command fail.
unfoldable pub verify_command : List Line → List Text → Ending VerificationReport
unfolding verify valid
verify_command ls [] =
    let report = verify ls in if valid report then printed report else printed_but_failed report
verify_command ls (a ∷ args) = refused usage

-- `Inspect`
unfoldable pub inspect_command : Env → Command QueueSnapshot
unfolding run_command inspect
inspect_command e = run_command (inspect e)

-- `Seed`
unfoldable pub seed_command : Env → (Text → ℕ → Time → Text) → Command (List Job)
unfolding run_command load_sample_data
seed_command e encode = run_command (load_sample_data e encode)
