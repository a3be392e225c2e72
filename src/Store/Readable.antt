-- ===== src/Store/Readable.antt =====
-- Rows that read back: every timestamp in them parses.
use local_first_job_queue.Prelude.{
  pos, ◌≡◌, refl, Option, none, some, List, [], ◌∷◌, Text, length, ℤ, arith,
}
use local_first_job_queue.Prelude.Predicates.{All}
use local_first_job_queue.Clock.{Time, parse, format}
use local_first_job_queue.Clock.RoundTrip.{parse-format}
use local_first_job_queue.Models.{Job, JobState, Event}
use local_first_job_queue.Store.{Row, EventRow, ok}
use local_first_job_queue.Store.Rows.{
  scan_optional, scan_job, scan_all, map_option, parse_optional, text_or_empty,
}
use local_first_job_queue.Store.Queries.{scan_events, event_of}
use local_first_job_queue.Store.Claim.{lease_row}
use local_first_job_queue.Store.Insert.{row_of}
use local_first_job_queue.Store.Changes.{release_row, renew_row, requeue_row}

-- Each of the four timestamps parses.
pub record IsReadable (r : Row) : Type 0 where
  pub created : Time
  pub created_ok : parse r.created_at ≡ some created
  pub updated : Time
  pub updated_ok : parse r.updated_at ≡ some updated
  pub until : Option Time
  pub until_ok : parse_optional r.leased_until ≡ some until
  pub run_at : Option Time
  pub run_at_ok : parse_optional r.run_at ≡ some run_at

-- The job of a row that reads back.
unfoldable pub scanned : (r : Row) → IsReadable r → Job
scanned r h = record {
  id = r.id;
  kind = r.kind;
  payload = r.payload;
  state = r.state;
  retry_count = r.retry_count;
  max_attempts = r.max_attempts;
  priority = r.priority;
  idempotency_key = r.idempotency_key;
  created_at = h.created;
  updated_at = h.updated;
  leased_until = h.until;
  lease_token = text_or_empty r.lease_token;
  run_at = h.run_at;
}

pub scan_job-IsReadable : (r : Row) (h : IsReadable r) → scan_job r ≡ ok (scanned r h)
unfolding scan_job scanned
scan_job-IsReadable r h = rw (h.created_ok, h.updated_ok, h.until_ok, h.run_at_ok) refl

pub scan_optional-IsReadable :
    (r : Row) (h : IsReadable r) → scan_optional (some r) ≡ ok (some (scanned r h))
unfolding scan_optional
scan_optional-IsReadable r h = ground (arith, scan_job-IsReadable r h)

-- Rows that read back make a list that does.
pub scan_all-IsReadable :
    (rows : List Row)
    → All IsReadable rows
    → (js : List Job) × (scan_all rows ≡ ok js) × (length js ≡ length rows)
unfolding scan_all
scan_all-IsReadable [] h = ([], refl, refl)
scan_all-IsReadable (r ∷ rs) h =
    let (js, q, n) = scan_all-IsReadable rs h.1 in
    (scanned r h.0 ∷ js, ground (arith, scan_job-IsReadable r h.0, q), omega (arith, n))

-- The timestamp of an event parses.
abbrev pub IsStamped : EventRow → Type 0
IsStamped v = (t : Time) × (parse v.timestamp ≡ some t)

abbrev event_at : EventRow → Time → Event
event_at v t = record {
  id = pos v.id;
  job_id = v.job_id;
  event_type = v.event_type;
  metadata = v.metadata;
  timestamp = t;
}

event_of-at :
    (v : EventRow) (t : Time)
    → parse v.timestamp ≡ some t
    → event_of v (parse v.timestamp) ≡ ok (event_at v t)
unfolding event_of
event_of-at v t q = rw q refl

pub scan_events-IsStamped :
    (rows : List EventRow)
    → All IsStamped rows
    → (vs : List Event) × (scan_events rows ≡ ok vs) × (length vs ≡ length rows)
unfolding scan_events event_of
scan_events-IsStamped [] h = ([], refl, refl)
scan_events-IsStamped (r ∷ rs) h =
    let (vs, q, n) = scan_events-IsStamped rs h.1 in
    (event_at r h.0.0 ∷ vs, ground (arith, event_of-at r h.0.0 h.0.1, q), omega (arith, n))

parse_optional-format : (t : Option Time) → parse_optional (map_option format t) ≡ some t
unfolding parse_optional
parse_optional-format none = refl
parse_optional-format (some t) = rw (parse-format t) refl

-- A row is written with the times of a job.
pub row_of-IsReadable : (j : Job) → IsReadable (row_of j)
unfolding row_of
row_of-IsReadable j = record {
  created = j.created_at;
  created_ok = parse-format j.created_at;
  updated = j.updated_at;
  updated_ok = parse-format j.updated_at;
  until = j.leased_until;
  until_ok = parse_optional-format j.leased_until;
  run_at = j.run_at;
  run_at_ok = parse_optional-format j.run_at;
}

-- A change of a row writes the time of a clock, and leaves the creation and ready times.
changed-IsReadable :
    (r s : Row) (t : Time) (until : Option Time)
    → IsReadable r
    → s.created_at ≡ r.created_at
    → s.run_at ≡ r.run_at
    → s.updated_at ≡ format t
    → s.leased_until ≡ map_option format until
    → IsReadable s
changed-IsReadable r s t until h c a u l = record {
  created = h.created;
  created_ok = rw c h.created_ok;
  updated = t;
  updated_ok = rw u (parse-format t);
  until = until;
  until_ok = rw l (parse_optional-format until);
  run_at = h.run_at;
  run_at_ok = rw a h.run_at_ok;
}

module _ (t : Time) (r : Row) (h : IsReadable r) where
  pub release_row-IsReadable : (s : JobState) (n : ℤ) → IsReadable (release_row s n (format t) r)
  release_row-IsReadable s n = changed-IsReadable r _ t none h refl refl refl refl

  pub lease_row-IsReadable :
      (u : Time) (token : Text) → IsReadable (lease_row (format t) (format u) token r)
  lease_row-IsReadable u token = changed-IsReadable r _ t (some u) h refl refl refl refl

  pub renew_row-IsReadable : (u : Time) → IsReadable (renew_row (format t) (format u) r)
  renew_row-IsReadable u = changed-IsReadable r _ t (some u) h refl refl refl refl

  pub requeue_row-IsReadable : (m : ℤ) (p : Option Text) → IsReadable (requeue_row m p (format t) r)
  requeue_row-IsReadable m p = changed-IsReadable r _ t none h refl refl refl refl
