-- ===== src/Queue.antt =====
-- internal/queue/queue.go: the queue's operations, each a few statements of the store and the event
-- that records what was done.
pub mod Options
pub mod Idempotency
pub mod Failures
pub mod Outcomes
pub mod Failing
pub mod Requeues
pub mod Leasing
pub mod Leased
pub mod Enqueueing
use local_first_job_queue.Prelude.{
  ℕ, Bool, true, false, Option, none, some, List, [], ◌∷◌, Text, eq_text, length, not, ◌&&◌,
  if◌then◌else◌, ℤ, pos, ◌+ℤ◌, ltb_ℤ, leb_ℤ,
}
use local_first_job_queue.Clock.{Time, Duration, add}
use local_first_job_queue.Models.{
  Job, JobState, pending, dead_letter, EventType, enqueued, scheduled, leased_event, acknowledged,
  retried, recovered, dead_lettered, requeued, lease_renewed, Metadata, kind_of, at_time, attempt,
  attempt_failed, exhausted, exhausted_by, deadline, attempts_reset, is_dead_letter, PrunePolicy,
  PruneResult, auto,
}
use local_first_job_queue.Store.{
  World, Env, Exec, Error, Result, ok, err, lease_lost, not_dead_lettered, conflict_without_job,
  time_now, new_text, lift, raise, pure, ◌>>=◌, ◌>>◌,
}
use local_first_job_queue.Store.Rows.{get_job}
use local_first_job_queue.Store.Claim.{lease_job}
use local_first_job_queue.Store.Insert.{insert_job, find_job_by_idempotency_key, append_event}
use local_first_job_queue.Store.Changes.{complete_job, fail_job, renew_job, requeue_job}
use local_first_job_queue.Store.Recover.{recover_orphaned_leases}
use local_first_job_queue.Store.Prune.{prune, prune_with_source}

abbrev pub default_max_attempts : ℤ
default_max_attempts = pos 3

abbrev pub default_priority : ℤ
default_priority = pos 0

pub record EnqueueConfig : Type 0 where
  pub idempotency_key : Text
  pub max_attempts : ℤ
  pub priority : ℤ
  pub run_at : Option Time

abbrev pub enqueue_defaults : EnqueueConfig
enqueue_defaults = record {
  idempotency_key = [];
  max_attempts = default_max_attempts;
  priority = default_priority;
  run_at = none;
}

-- The values below one are clamped.
abbrev pub clamp_attempts : ℤ → ℤ
clamp_attempts n = if ltb_ℤ n (pos 1) then pos 1 else n

abbrev pub key_of : Text → Option Text
key_of [] = none
key_of (c ∷ cs) = some (c ∷ cs)

-- The job that `Enqueue` stores.
unfoldable pub new_job : Text → Text → Text → EnqueueConfig → Time → Job
new_job id kind payload cfg now = record {
  id = id;
  kind = kind;
  payload = payload;
  state = pending;
  retry_count = pos 0;
  max_attempts = clamp_attempts cfg.max_attempts;
  priority = cfg.priority;
  idempotency_key = key_of cfg.idempotency_key;
  created_at = now;
  updated_at = now;
  leased_until = none;
  lease_token = [];
  run_at = cfg.run_at;
}

abbrev pub creation_event : Option Time → EventType
creation_event none = enqueued
creation_event (some t) = scheduled

abbrev pub creation_metadata : Text → Option Time → Metadata
creation_metadata kind none = kind_of kind
creation_metadata kind (some t) = at_time t

unfoldable pub append_enqueue_events : Env → Job → Time → Exec (Unit {0})
unfolding append_event
append_enqueue_events e j now =
    append_event e j.id (creation_event j.run_at) (some (creation_metadata j.kind j.run_at)) now

existing_or_error : Option Job → Result Job
existing_or_error none = err conflict_without_job
existing_or_error (some j) = ok j

unfoldable pub finish_enqueue : Env → EnqueueConfig → Job → Time → Bool → Exec Job
unfolding append_enqueue_events find_job_by_idempotency_key existing_or_error
finish_enqueue e cfg j now false = do
  found ← find_job_by_idempotency_key e cfg.idempotency_key
  lift (existing_or_error found)
finish_enqueue e cfg j now true = do append_enqueue_events e j now; pure j

-- `Enqueue`, with the options applied to the defaults.
unfoldable pub enqueue : Env → Text → Text → EnqueueConfig → Exec Job
unfolding new_text insert_job finish_enqueue new_job
enqueue e kind payload cfg = do
  id ← new_text e
  now ← time_now e
  let j = new_job id kind payload cfg now
  inserted ← insert_job e j
  finish_enqueue e cfg j now inserted

unfoldable pub record_lease : Env → Option Job → Exec (Option Job)
unfolding append_event
record_lease e none = pure none
record_lease e (some j) = do
  at ← time_now e
  append_event e j.id leased_event none at
  pure (some j)

-- `Lease`
unfoldable pub lease : Env → Text → Duration → Exec (Option Job)
unfolding lease_job record_lease
lease e kind duration = do claimed ← lease_job e kind duration; record_lease e claimed

-- `acknowledge`: the empty token is `Acknowledge`, any other `AcknowledgeLease`.
unfoldable pub acknowledge : Env → Text → Text → Exec (Unit {0})
unfolding complete_job append_event
acknowledge e id token = do
  complete_job e id token
  at ← time_now e
  append_event e id acknowledged none at

abbrev pub is_foreign : Text → Job → Bool
is_foreign [] j = false
is_foreign (c ∷ cs) j = not (eq_text j.lease_token (c ∷ cs))

-- An additional attempt still fits inside the limit.
abbrev pub should_retry : Job → Bool
should_retry j = ltb_ℤ (j.retry_count +ℤ pos 1) j.max_attempts

abbrev pub failure_event : Bool → EventType
failure_event true = retried
failure_event false = dead_lettered

abbrev pub failure_metadata : Bool → Job → Text → Metadata
failure_metadata true j message = attempt_failed (j.retry_count +ℤ pos 1) j.max_attempts message
failure_metadata false j message = exhausted_by (j.retry_count +ℤ pos 1) j.max_attempts message

unfoldable pub fail_known : Env → Text → Text → Text → Job → Exec (Unit {0})
unfolding fail_job append_event
fail_known e id token message j = do
  fail_job e id token (should_retry j)
  at ← time_now e
  append_event e id (failure_event (should_retry j))
      (some (failure_metadata (should_retry j) j message)) at

-- `fail`: the empty token is `Fail`, any other `FailLease`.
unfoldable pub fail : Env → Text → Text → Text → Exec (Unit {0})
unfolding get_job fail_known
fail e id token message = do
  j ← get_job e id
  if is_foreign token j then raise lease_lost else fail_known e id token message j

-- `Renew`
unfoldable pub renew : Env → Text → Text → Duration → Exec Job
unfolding renew_job append_event
renew e id token duration = do
  j ← renew_job e id token duration
  at ← time_now e
  append_event e id lease_renewed (some (deadline j.leased_until)) at
  pure j

abbrev pub recovery_event : JobState → EventType
recovery_event dead_letter = dead_lettered
recovery_event _ = recovered

abbrev pub recovery_metadata : JobState → Job → Metadata
recovery_metadata dead_letter j = exhausted j.retry_count j.max_attempts
recovery_metadata _ j = attempt j.retry_count j.max_attempts

unfoldable pub record_recoveries : Env → Time → List Job → Exec (Unit {0})
unfolding append_event
record_recoveries e now [] = pure tt
record_recoveries e now (j ∷ js) = do
  append_event e j.id (recovery_event j.state) (some (recovery_metadata j.state j)) now
  record_recoveries e now js

-- `Recover`
unfoldable pub recover : Env → Exec ℕ
unfolding recover_orphaned_leases record_recoveries
recover e = do
  jobs ← recover_orphaned_leases e
  now ← time_now e
  record_recoveries e now jobs
  pure (length jobs)

pub record RequeueConfig : Type 0 where
  pub max_attempts : ℤ
  pub payload : Option Text

abbrev pub requeue_budget : RequeueConfig → Job → ℤ
requeue_budget cfg j = if leb_ℤ (pos 1) cfg.max_attempts then cfg.max_attempts else j.max_attempts

unfoldable pub requeue_known : Env → Text → RequeueConfig → Job → Exec Job
unfolding requeue_job append_event
requeue_known e id cfg j = do
  updated ← requeue_job e id (requeue_budget cfg j) cfg.payload
  at ← time_now e
  append_event e id requeued (some (attempts_reset (requeue_budget cfg j))) at
  pure updated

-- `Requeue`, with the options applied.
unfoldable pub requeue : Env → Text → RequeueConfig → Exec Job
unfolding get_job requeue_known
requeue e id cfg = do
  j ← get_job e id
  if not (is_dead_letter j.state) then raise not_dead_lettered else requeue_known e id cfg j

-- `Queue.Prune` passes on `prune`; `PruneAuto` records the run as automatic.
unfoldable pub prune_auto : Env → PrunePolicy → Exec PruneResult
unfolding prune_with_source
prune_auto e p = prune_with_source e p auto
