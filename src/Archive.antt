-- ===== src/Archive.antt =====
-- internal/archive/archive.go: the verifier of exported histories. A line of the archive is what
-- the JSON decoder makes of it: a record, an error, or nothing but blanks.
pub mod Transition
pub mod Soundness
pub mod Report
pub mod Fitting
pub mod Acceptance
pub mod Exact
use local_first_job_queue.Prelude.{
  ℕ, zero, suc, ◌+◌, Bool, true, false, ◌&&◌, ◌||◌, not, Option, none, some, List, [], ◌∷◌, ◌++◌,
  Text, eq_text, ltb, leb, ◌==◌, if◌then◌else◌, ℤ, pos, ltb_ℤ, leb_ℤ,
}
use local_first_job_queue.Clock.{Time}
use local_first_job_queue.Models.{
  Job, JobState, pending, leased, completed, failed, dead_letter, other_state, Event, EventType,
  enqueued, scheduled,
}
use Transition.{
  ReplayState, unknown, replay_pending, replay_leased, replay_completed, replay_failed,
  replay_dead_letter, first_event_state, transition,
}

abbrev pub schema_version_1 : ℤ
schema_version_1 = pos 1

pub record Record : Type 0 where
  pub schema_version : ℤ
  pub job : Job
  pub events : List Event

pub data Code : Type 0 where
  invalid_json unsupported_schema missing_job_id duplicate_job invalid_attempt_budget : Code
  invalid_retry_count invalid_job_state invalid_job_time missing_history invalid_event_id : Code
  duplicate_event broken_reference invalid_event_time invalid_event_order : Code
  invalid_transition state_mismatch history_truncated : Code

-- An issue without its message.
pub record Issue : Type 0 where
  pub line : ℕ
  pub job_id : Text
  pub code : Code

pub record VerificationReport : Type 0 where
  pub records : ℕ
  pub valid_records : ℕ
  pub issues : List Issue
  pub warnings : List Issue

-- The maps `seenJobs` and `seenEvents`, newest entry first.
pub record Seen : Type 0 where
  pub jobs : List Text
  pub events : List ℤ

unfoldable pub seen_text : Text → List Text → Bool
seen_text t [] = false
seen_text t (u ∷ us) = let rest = seen_text t us in if eq_text u t then true else rest

abbrev pub eq_ℤ : ℤ → ℤ → Bool
eq_ℤ a b = leb_ℤ a b && leb_ℤ b a

unfoldable pub seen_id : ℤ → List ℤ → Bool
seen_id n [] = false
seen_id n (m ∷ ms) = let rest = seen_id n ms in if eq_ℤ m n then true else rest

abbrev pub when : Bool → Code → List Code
when true c = c ∷ []
when false c = []

abbrev pub is_zero : Time → Bool
is_zero t = t == 0

-- `validJobState`
abbrev pub valid_job_state : JobState → Bool
valid_job_state (other_state s) = false
valid_job_state _ = true

abbrev pub is_empty : Text → Bool
is_empty [] = true
is_empty _ = false

-- The codes of the job's own fields, and `seenJobs` after them.
unfoldable pub job_codes : Record → Seen → List Code
unfolding seen_text
job_codes r seen =
    when (not (eq_ℤ r.schema_version schema_version_1)) unsupported_schema
    ++ (if is_empty r.job.id
        then missing_job_id ∷ []
        else when (seen_text r.job.id seen.jobs) duplicate_job)
    ++ when (ltb_ℤ r.job.max_attempts (pos 1)) invalid_attempt_budget
    ++ when (ltb_ℤ r.job.retry_count (pos 0) || ltb_ℤ r.job.max_attempts r.job.retry_count)
        invalid_retry_count
    ++ when (not (valid_job_state r.job.state)) invalid_job_state
    ++ when
        (not (is_zero r.job.created_at)
          && not (is_zero r.job.updated_at)
          && ltb r.job.updated_at r.job.created_at)
        invalid_job_time

abbrev pub note_job : Text → List Text → List Text
note_job id jobs = if is_empty id then jobs else if seen_text id jobs then jobs else id ∷ jobs

-- What the loop over a record's events carries.
pub record Loop : Type 0 where
  pub state : ReplayState
  pub previous_id : ℤ
  pub previous_timestamp : Time
  pub seen_events : List ℤ

-- The codes of one event before its transition is looked at.
unfoldable pub event_codes : Text → Loop → Event → List Code
unfolding seen_id
event_codes job_id l v =
    (if leb_ℤ v.id (pos 0)
      then invalid_event_id ∷ []
      else when (seen_id v.id l.seen_events) duplicate_event)
    ++ when (not (eq_text v.job_id job_id)) broken_reference
    ++ when (is_zero v.timestamp) invalid_event_time
    ++ when (ltb_ℤ (pos 0) l.previous_id && leb_ℤ v.id l.previous_id) invalid_event_order
    ++ when
        (not (is_zero l.previous_timestamp)
          && not (is_zero v.timestamp)
          && ltb v.timestamp l.previous_timestamp)
        invalid_event_order

abbrev pub note_event : ℤ → List ℤ → List ℤ
note_event n ids = if leb_ℤ n (pos 0) then ids else if seen_id n ids then ids else n ∷ ids

abbrev pub after_event : Loop → ReplayState → Event → Loop
after_event l s v = record {
  state = s;
  previous_id = v.id;
  previous_timestamp = if is_zero v.timestamp then l.previous_timestamp else v.timestamp;
  seen_events = note_event v.id l.seen_events;
}

abbrev pub starts_history : EventType → Bool
starts_history enqueued = true
starts_history scheduled = true
starts_history _ = false

-- The codes of a rejected event, and the state it leaves.
abbrev pub transition_codes : ReplayState × Bool → List Code
transition_codes (s, ok) = when (not ok) invalid_transition

abbrev pub state_after : ReplayState → ReplayState × Bool → ReplayState
state_after old (next, ok) = if ok then next else old

-- The events from the second on.
unfoldable pub later_events : Text → Loop → List Event → List Code × Loop
unfolding event_codes transition
later_events job_id l [] = ([], l)
later_events job_id l (v ∷ vs) =
    let t = transition l.state v.event_type in
    let (codes, end) = later_events job_id (after_event l (state_after l.state t) v) vs in
    (event_codes job_id l v ++ transition_codes t ++ codes, end)

abbrev pub start_loop : List ℤ → Loop
start_loop seen = record {
  state = unknown;
  previous_id = pos 0;
  previous_timestamp = 0;
  seen_events = seen;
}

-- The code that the verifier compares with the stored state: `string(state)`.
abbrev pub same_state : ReplayState → JobState → Bool
same_state replay_pending pending = true
same_state replay_leased leased = true
same_state replay_completed completed = true
same_state replay_failed failed = true
same_state replay_dead_letter dead_letter = true
same_state _ _ = false

abbrev pub is_unknown : ReplayState → Bool
is_unknown unknown = true
is_unknown _ = false

pub record Findings : Type 0 where
  pub errors : List Code
  pub warnings : List Code
  pub seen : Seen

-- The loop over the events and the comparison behind it.
unfoldable pub events_findings : List Event → Record → Seen → Findings
unfolding later_events first_event_state event_codes
events_findings [] r seen = record { errors = missing_history ∷ []; warnings = []; seen = seen }
events_findings (v ∷ vs) r seen =
    let first = start_loop seen.events in
    let (s, ok) = first_event_state v.event_type in
    let (codes, end) = later_events r.job.id (after_event first s v) vs in
    record {
      errors =
          event_codes r.job.id first v
          ++ when (not ok) invalid_transition
          ++ codes
          ++ when (not (is_unknown end.state) && not (same_state end.state r.job.state))
              state_mismatch;
      warnings = when (ok && not (starts_history v.event_type)) history_truncated;
      seen = record { jobs = seen.jobs; events = end.seen_events };
    }

-- `validateRecord`
unfoldable pub validate_record : Record → Seen → Findings
unfolding job_codes events_findings
validate_record r seen =
    let rest = events_findings r.events r (record seen { jobs = note_job r.job.id seen.jobs }) in
    record rest { errors = job_codes r seen ++ rest.errors }

-- What `json.Unmarshal` makes of a line that is not blank, or a blank line.
pub data Line : Type 0 where
  blank malformed : Line
  decoded : Record → Line

abbrev pub issues_at : ℕ → Text → List Code → List Issue
issues_at n id [] = []
issues_at n id (c ∷ cs) = record { line = n; job_id = id; code = c } ∷ issues_at n id cs

abbrev pub count_valid : List Code → ℕ
count_valid [] = 1
count_valid _ = 0

abbrev pub add_record : ℕ → Record → Findings → VerificationReport → VerificationReport
add_record n r f rep = record {
  records = suc rep.records;
  valid_records = rep.valid_records + count_valid f.errors;
  issues = rep.issues ++ issues_at n r.job.id f.errors;
  warnings = rep.warnings ++ issues_at n r.job.id f.warnings;
}

abbrev pub add_malformed : ℕ → VerificationReport → VerificationReport
add_malformed n rep = record rep {
  records = suc rep.records;
  issues = rep.issues ++ issues_at n [] (invalid_json ∷ []);
}

-- The loop of `Verify`, from line `n`.
unfoldable pub verify_from : ℕ → List Line → Seen → VerificationReport → VerificationReport
unfolding validate_record
verify_from n [] seen rep = rep
verify_from n (blank ∷ ls) seen rep = verify_from (suc n) ls seen rep
verify_from n (malformed ∷ ls) seen rep = verify_from (suc n) ls seen (add_malformed n rep)
verify_from n (decoded r ∷ ls) seen rep =
    let f = validate_record r seen in verify_from (suc n) ls f.seen (add_record n r f rep)

abbrev pub empty_report : VerificationReport
empty_report = record { records = 0; valid_records = 0; issues = []; warnings = [] }

-- `Verify`, of an input that reads to its end.
unfoldable pub verify : List Line → VerificationReport
unfolding verify_from
verify ls = verify_from 1 ls (record { jobs = []; events = [] }) empty_report

-- `Valid`
unfoldable pub valid : VerificationReport → Bool
valid rep = elim rep.issues [ [] ↦ true | _ ↦ false ]
