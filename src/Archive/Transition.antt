-- ===== src/Archive/Transition.antt =====
-- The states and transitions that internal/archive/archive.go replays events through.
use local_first_job_queue.Prelude.{Bool, true, false}
use local_first_job_queue.Models.{
  EventType, enqueued, scheduled, leased_event, acknowledged, failed_event, retried, recovered,
  dead_lettered, requeued, lease_renewed, other_event,
}

pub data ReplayState : Type 0 where
  unknown replay_pending replay_leased replay_completed replay_failed : ReplayState
  replay_dead_letter : ReplayState

-- `firstEventState`
unfoldable pub first_event_state : EventType → ReplayState × Bool
first_event_state enqueued = (replay_pending, true)
first_event_state scheduled = (replay_pending, true)
first_event_state leased_event = (replay_leased, true)
first_event_state lease_renewed = (replay_leased, true)
first_event_state acknowledged = (replay_completed, true)
first_event_state failed_event = (replay_failed, true)
first_event_state retried = (replay_pending, true)
first_event_state recovered = (replay_pending, true)
first_event_state requeued = (replay_pending, true)
first_event_state dead_lettered = (replay_dead_letter, true)
first_event_state (other_event t) = (unknown, false)

abbrev pub is_replay_pending : ReplayState → Bool
is_replay_pending replay_pending = true
is_replay_pending _ = false

abbrev pub is_replay_leased : ReplayState → Bool
is_replay_leased replay_leased = true
is_replay_leased _ = false

abbrev pub is_replay_dead_letter : ReplayState → Bool
is_replay_dead_letter replay_dead_letter = true
is_replay_dead_letter _ = false

-- `transition`
unfoldable pub transition : ReplayState → EventType → ReplayState × Bool
transition s leased_event = (replay_leased, is_replay_pending s)
transition s lease_renewed = (replay_leased, is_replay_leased s)
transition s acknowledged = (replay_completed, is_replay_leased s)
transition s failed_event = (replay_failed, is_replay_leased s)
transition s retried = (replay_pending, is_replay_leased s)
transition s recovered = (replay_pending, is_replay_leased s)
transition s dead_lettered = (replay_dead_letter, is_replay_leased s)
transition s requeued = (replay_pending, is_replay_dead_letter s)
transition s _ = (unknown, false)
