-- ===== src/Store/Counts.antt =====
-- The grouped counts of internal/queue/sqlite.go that metrics and the dashboard read.
pub mod Totals
use local_first_job_queue.Prelude.{ℕ, Ordering, List, [], ◌∷◌, map, Text, compare_text}
use local_first_job_queue.Prelude.Order.{◌then_by◌}
use local_first_job_queue.Prelude.Tally.{groups}
use local_first_job_queue.Models.{
  JobState, EventType, state_text, event_text, KindStateCount, EventTypeCount,
}
use local_first_job_queue.Store.{Row, EventRow, Env, Exec, ok, statement}

-- `ORDER BY kind, state`
abbrev pub kind_state_order : Text × JobState → Text × JobState → Ordering
kind_state_order (k, s) (l, t) = compare_text k l then_by compare_text (state_text s) (state_text t)

abbrev pub kind_state : Row → Text × JobState
kind_state r = (r.kind, r.state)

abbrev pub kind_state_count : (Text × JobState) × ℕ → KindStateCount
kind_state_count ((k, s), n) = record { kind = k; state = s; total = n }

-- `SELECT kind, state, COUNT(*) FROM jobs GROUP BY kind, state ORDER BY kind, state`
unfoldable pub state_kind_counts : List Row → List KindStateCount
unfolding groups
state_kind_counts rows = map kind_state_count (groups kind_state_order (map kind_state rows))

-- `GetStateKindCounts`
unfoldable pub get_state_kind_counts : Env → Exec (List KindStateCount)
unfolding state_kind_counts
get_state_kind_counts e = statement e (λ d. (ok (state_kind_counts d.jobs), d))

-- `ORDER BY event_type`
abbrev pub event_order : EventType → EventType → Ordering
event_order a b = compare_text (event_text a) (event_text b)

abbrev pub event_type_count : EventType × ℕ → EventTypeCount
event_type_count (t, n) = record { event_type = t; total = n }

-- `SELECT event_type, COUNT(*) FROM events GROUP BY event_type ORDER BY event_type`
unfoldable pub event_type_counts : List EventRow → List EventTypeCount
unfolding groups
event_type_counts events =
    map event_type_count (groups event_order (map (λ (v : EventRow). v.event_type) events))

-- `GetEventTypeCounts`
unfoldable pub get_event_type_counts : Env → Exec (List EventTypeCount)
unfolding event_type_counts
get_event_type_counts e = statement e (λ d. (ok (event_type_counts d.events), d))
