-- ===== src/Journal/Records.antt =====
-- The record that an export makes of a job and its log is one that the verifier accepts.
use local_first_job_queue.Prelude.{
  ◌≡◌, refl, ◌∙◌, ℕ, inr, true, Option, none, some, List, [], ◌∷◌, Text, eq_text, eq_text_iff,
  arith, pos, map,
}
use local_first_job_queue.Prelude.Predicates.{All}
use local_first_job_queue.Clock.{Time, parse}
use local_first_job_queue.Clock.RoundTrip.{parse-format}
use local_first_job_queue.Models.{Job, JobState, Event}
use local_first_job_queue.Archive.Transition.{ReplayState, transition}
use local_first_job_queue.Archive.{Record, same_state, valid_job_state}
use local_first_job_queue.Archive.Soundness.{Continues, IsHistory}
use local_first_job_queue.Archive.Fitting.{Timed, IsAccepted}
use local_first_job_queue.Store.{Row, EventRow, ok}
use local_first_job_queue.Store.Rows.{scan_job, scan_all, parse_optional, text_or_empty}
use local_first_job_queue.Store.Readable.{IsReadable, scanned, scan_job-IsReadable, IsStamped}
use local_first_job_queue.Store.Queries.{scan_events, event_of}
use local_first_job_queue.Statements.Shape.{Ascends}
use local_first_job_queue.Journal.{Steps, Replays, Dated, Told}

abbrev or_zero : Option Time → Time
or_zero none = 0
or_zero (some t) = t

abbrev or_none : Option (Option Time) → Option Time
or_none none = none
or_none (some o) = o

-- What a row reads as, where its timestamps parse.
abbrev pub read_event : EventRow → Event
read_event v = record {
  id = pos v.id;
  job_id = v.job_id;
  event_type = v.event_type;
  metadata = v.metadata;
  timestamp = or_zero (parse v.timestamp);
}

abbrev pub read_job : Row → Job
read_job r = record {
  id = r.id;
  kind = r.kind;
  payload = r.payload;
  state = r.state;
  retry_count = r.retry_count;
  max_attempts = r.max_attempts;
  priority = r.priority;
  idempotency_key = r.idempotency_key;
  created_at = or_zero (parse r.created_at);
  updated_at = or_zero (parse r.updated_at);
  leased_until = or_none (parse_optional r.leased_until);
  lease_token = text_or_empty r.lease_token;
  run_at = or_none (parse_optional r.run_at);
}

scan_job-read : (r : Row) → IsReadable r → scan_job r ≡ ok (read_job r)
unfolding scanned
scan_job-read r h =
    scan_job-IsReadable r h ∙ rw (h.created_ok, h.updated_ok, h.until_ok, h.run_at_ok) refl

pub scan_all-read : (rows : List Row) → All IsReadable rows → scan_all rows ≡ ok (map read_job rows)
unfolding scan_all
scan_all-read [] h = refl
scan_all-read (r ∷ rs) h = ground (arith, scan_job-read r h.0, scan_all-read rs h.1)

pub scan_events-read :
    (vs : List EventRow) → All IsStamped vs → scan_events vs ≡ ok (map read_event vs)
unfolding scan_events event_of
scan_events-read [] h = refl
scan_events-read (v ∷ vs) ((t, q), h) =
    let rest = scan_events-read vs h in rw q (ground (arith, rest))

-- The record of a row and the events of its job.
abbrev pub record_of : Row → List EventRow → Record
record_of r vs = record { schema_version = pos 1; job = read_job r; events = map read_event vs }

abbrev IsOf : Text → List EventRow → Type 0
IsOf id = All (λ (v : EventRow). eq_text v.job_id id ≡ true)

Steps-Continues :
    (id : Text) (low next : ℕ) (s final : ReplayState) (vs : List EventRow)
    → IsOf id vs
    → Ascends low next vs
    → Steps s final vs
    → Continues id (pos low) s final (map read_event vs)
Steps-Continues id low next s final [] o a h = h
Steps-Continues id low next s final (v ∷ vs) o a h = (
  (eq_text_iff v.job_id id).0 o.0,
  omega (arith, a.0),
  h.0,
  Steps-Continues id v.id next (transition s v.event_type).0 final vs o.1 a.1 h.1,
)

Replays-IsHistory :
    (id : Text) (next : ℕ) (state : JobState) (vs : List EventRow)
    → IsOf id vs
    → Ascends 0 next vs
    → Replays state vs
    → IsHistory id state (map read_event vs)
Replays-IsHistory id next state [] o a h = h
Replays-IsHistory id next state (v ∷ vs) o a (first, (final, same, steps)) = (
  (eq_text_iff v.job_id id).0 o.0,
  omega (arith, a.0),
  first,
  (final, same, Steps-Continues id v.id next _ final vs o.1 a.1 steps),
)

Dated-Timed :
    (low high : Time) (vs : List EventRow) → Dated low high vs → Timed low (map read_event vs)
Dated-Timed low high [] h = tt
Dated-Timed low high (v ∷ vs) (t, e, p, l, h) =
    let read : or_zero (parse v.timestamp) ≡ t = rw (e, parse-format t) refl in
    rw read ((λ q. omega arith), l, Dated-Timed t high vs h)

known_state :
    (state : JobState) (s : ReplayState) → same_state s state ≡ true → valid_job_state state ≡ true
known_state state s h = ground arith

Replays-known :
    (state : JobState) (vs : List EventRow) → Replays state vs → valid_job_state state ≡ true
Replays-known state [] h = absurd h
Replays-known state (v ∷ vs) (first, (final, same, steps)) = known_state state final same

pub Told-IsAccepted :
    (high : Time) (next : ℕ) (r : Row) (vs : List EventRow)
    → Told high r vs
    → IsOf r.id vs
    → Ascends 0 next vs
    → IsAccepted (record_of r vs)
Told-IsAccepted high next r vs h o a =
    let s = h.sound in
    record {
      consistent = record {
        version = refl;
        has_id = s.named;
        budget = s.counts.budget;
        retries = (s.counts.retries, s.counts.within);
        known_state = Replays-known r.state vs h.replays;
        history = Replays-IsHistory r.id next r.state vs o a h.replays;
      };
      ordered =
          rw (s.created_ok, s.updated_ok, parse-format s.created, parse-format s.updated)
            (inr (inr s.ordered));
      timed = Dated-Timed 0 high vs h.dated;
    }
