-- ===== src/Models.antt =====
-- internal/queue/models.go: jobs, events and what a retention run records.
use local_first_job_queue.Prelude.{ℕ, Bool, true, false, Option, Text, bytes, ℤ}
use local_first_job_queue.Clock.{Time}

-- `JobState` and `EventType` are strings: the constants, and any other text.
pub data JobState : Type 0 where
  pending leased completed failed dead_letter : JobState
  other_state : Text → JobState

pub data EventType : Type 0 where
  enqueued scheduled leased_event acknowledged failed_event retried recovered : EventType
  dead_lettered requeued lease_renewed : EventType
  other_event : Text → EventType

-- An empty `lease_token` is the empty text, as in the source.
pub record Job : Type 0 where
  pub id : Text
  pub kind : Text
  pub payload : Text
  pub state : JobState
  pub retry_count : ℤ
  pub max_attempts : ℤ
  pub priority : ℤ
  pub idempotency_key : Option Text
  pub created_at : Time
  pub updated_at : Time
  pub leased_until : Option Time
  pub lease_token : Text
  pub run_at : Option Time

-- The text of an event's metadata is what the source builds; `Metadata` names its parts.
pub data Metadata : Type 0 where
  kind_of : Text → Metadata
  at_time : Time → Metadata
  attempt : ℤ → ℤ → Metadata
  attempt_failed : ℤ → ℤ → Text → Metadata
  exhausted : ℤ → ℤ → Metadata
  exhausted_by : ℤ → ℤ → Text → Metadata
  deadline : Option Time → Metadata
  attempts_reset : ℤ → Metadata

pub record Event : Type 0 where
  pub id : ℤ
  pub job_id : Text
  pub event_type : EventType
  pub metadata : Option Metadata
  pub timestamp : Time

pub data RetentionSource : Type 0 where
  manual auto : RetentionSource
  other_source : Text → RetentionSource

pub record RetentionRun : Type 0 where
  pub id : ℕ
  pub started_at : Time
  pub source : RetentionSource
  pub max_job_age : ℤ
  pub max_events_per_job : ℤ
  pub jobs_removed : ℕ
  pub events_removed : ℕ

pub record RetentionSourceCount : Type 0 where
  pub source : RetentionSource
  pub runs : ℕ
  pub jobs_removed : ℕ
  pub events_removed : ℕ

-- prune.go
pub record PrunePolicy : Type 0 where
  pub max_job_age : ℤ
  pub max_events_per_job : ℤ

pub record PruneResult : Type 0 where
  pub jobs_removed : ℕ
  pub events_removed : ℕ

abbrev pub is_pending : JobState → Bool
is_pending pending = true
is_pending _ = false

abbrev pub is_leased : JobState → Bool
is_leased leased = true
is_leased _ = false

abbrev pub is_dead_letter : JobState → Bool
is_dead_letter dead_letter = true
is_dead_letter _ = false

-- The states of prune.go's `state IN (?, ?, ?)`.
abbrev pub is_terminal : JobState → Bool
is_terminal completed = true
is_terminal dead_letter = true
is_terminal failed = true
is_terminal _ = false

-- The text of a constant, as it is stored and sorted.
abbrev pub state_text : JobState → Text
state_text pending = bytes "pending"
state_text leased = bytes "leased"
state_text completed = bytes "completed"
state_text failed = bytes "failed"
state_text dead_letter = bytes "dead_letter"
state_text (other_state s) = s

abbrev pub event_text : EventType → Text
event_text enqueued = bytes "enqueued"
event_text scheduled = bytes "scheduled"
event_text leased_event = bytes "leased"
event_text acknowledged = bytes "acknowledged"
event_text failed_event = bytes "failed"
event_text retried = bytes "retried"
event_text recovered = bytes "recovered"
event_text dead_lettered = bytes "dead_lettered"
event_text requeued = bytes "requeued"
event_text lease_renewed = bytes "lease_renewed"
event_text (other_event s) = s

pub record KindStateCount : Type 0 where
  pub kind : Text
  pub state : JobState
  pub total : ℕ

pub record EventTypeCount : Type 0 where
  pub event_type : EventType
  pub total : ℕ
