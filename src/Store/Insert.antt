-- ===== src/Store/Insert.antt =====
-- `InsertJob`, `FindJobByIdempotencyKey` and `AppendEvent` of internal/queue/sqlite.go.
use local_first_job_queue.Prelude.{
  ℕ, suc, Bool, true, false, Option, none, some, List, [], ◌∷◌, ◌++◌, Text, eq_text, find?,
}
use local_first_job_queue.Clock.{Time, Stamp, format}
use local_first_job_queue.Models.{Job, EventType, Metadata}
use local_first_job_queue.Store.{
  Row, EventRow, Db, Env, Exec, Result, ok, err, duplicate_id, statement, lift, ◌>>=◌,
}
use local_first_job_queue.Store.Rows.{map_option, has_id, set_jobs, scan_optional, select_one}

-- The row that the `VALUES` make; no lease token is written.
unfoldable pub row_of : Job → Row
row_of j = record {
  id = j.id;
  kind = j.kind;
  payload = j.payload;
  state = j.state;
  retry_count = j.retry_count;
  max_attempts = j.max_attempts;
  priority = j.priority;
  idempotency_key = j.idempotency_key;
  created_at = format j.created_at;
  updated_at = format j.updated_at;
  leased_until = map_option format j.leased_until;
  run_at = map_option format j.run_at;
  lease_token = none;
}

-- `idempotency_key = ?`, which NULL does not satisfy.
abbrev pub key_is : Text → Option Text → Bool
key_is k none = false
key_is k (some j) = eq_text j k

abbrev pub has_key : Text → Row → Bool
has_key k r = key_is k r.idempotency_key

-- The row that holds the key of a new row: NULL conflicts with nothing.
abbrev pub conflicting : Option Text → List Row → Option Row
conflicting none rows = none
conflicting (some k) rows = find? (has_key k) rows

insert_unless : Row → Option Row → Option Row → Db → Result Bool × Db
insert_unless row (some held) same_id d = (ok false, d)
insert_unless row none (some taken) d = (err duplicate_id, d)
insert_unless row none none d = (ok true, set_jobs d (d.jobs ++ row ∷ []))

-- `INSERT .. ON CONFLICT(idempotency_key) DO NOTHING`: whether a row was added. The conflict that
-- the clause names is looked for first; a taken primary key is an error.
unfoldable pub insert_row : Row → Db → Result Bool × Db
unfolding insert_unless
insert_row row d =
    insert_unless row (conflicting row.idempotency_key d.jobs) (find? (has_id row.id) d.jobs) d

-- `InsertJob`
unfoldable pub insert_job : Env → Job → Exec Bool
unfolding insert_row row_of
insert_job e j = statement e (insert_row (row_of j))

-- `FindJobByIdempotencyKey`
unfoldable pub find_job_by_idempotency_key : Env → Text → Exec (Option Job)
unfolding select_one
find_job_by_idempotency_key e key = do
  row ← statement e (select_one (has_key key))
  lift (scan_optional row)

abbrev pub event_row : ℕ → Text → EventType → Option Metadata → Stamp → EventRow
event_row id job_id event_type metadata timestamp = record {
  id = id;
  job_id = job_id;
  event_type = event_type;
  metadata = metadata;
  timestamp = timestamp;
}

-- `INSERT INTO events (..) VALUES (..)`
unfoldable pub insert_event :
    Text → EventType → Option Metadata → Time → Db → Result (Unit {0}) × Db
insert_event job_id event_type metadata at d = (
  ok tt,
  record d {
    events = d.events ++ event_row d.next_event job_id event_type metadata (format at) ∷ [];
    next_event = suc d.next_event;
  },
)

-- `AppendEvent`
unfoldable pub append_event : Env → Text → EventType → Option Metadata → Time → Exec (Unit {0})
unfolding insert_event
append_event e job_id event_type metadata at =
    statement e (insert_event job_id event_type metadata at)
