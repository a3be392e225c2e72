-- ===== src/Journal/Runs.antt =====
-- What a recovery does where no statement fails: the updates of all expired leases, then the
-- events of all.
use local_first_job_queue.Prelude.{
  ◌≡◌, refl, ◌∙◌, ℕ, true, false, some, List, [], ◌∷◌, Text, eq_text, arith, suc, ◌+◌, ◌++◌, map,
  length,
}
use local_first_job_queue.Prelude.Predicates.{All, find?-test}
use local_first_job_queue.Clock.{Time, Stamp, format}
use local_first_job_queue.Models.{Job, is_leased}
use local_first_job_queue.Store.{Row, EventRow, World, Env, ok, statement, pure, ◌>>=◌}
use local_first_job_queue.Store.Rows.{has_id, update_where, set_jobs}
use local_first_job_queue.Store.Changes.{release_row}
use local_first_job_queue.Store.Insert.{insert_event, append_event, event_row}
use local_first_job_queue.Store.Lookup.{find_id}
use local_first_job_queue.Store.Recover.{
  next_attempt, recovered_state, recovered_job, is_leased_id, recover_each,
}
use local_first_job_queue.Queue.{record_recoveries, recovery_event, recovery_metadata}
use local_first_job_queue.Queue.Idempotency.{IsQuiet}
use local_first_job_queue.Queue.Outcomes.{count-pos}
use local_first_job_queue.Journal.Change.{untouched}

-- A job as it was read from the row that its id finds, which is leased.
pub record IsRead (rows : List Row) (j : Job) : Type 0 where
  pub row : Row
  pub found : find_id j.id rows ≡ some row
  pub is_lease : is_leased row.state ≡ true
  pub max_attempts : j.max_attempts ≡ row.max_attempts
  pub retry_count : j.retry_count ≡ row.retry_count

abbrev pub Differ : List Job → Type 0
Differ [] = Unit
Differ (j ∷ js) = All (λ (k : Job). eq_text j.id k.id ≡ false) js × Differ js

abbrev pub recover_one : Stamp → Job → List Row → List Row
recover_one now j rows =
    update_where (is_leased_id j.id) (release_row (recovered_state j) (next_attempt j) now) rows

-- The rows after all updates, and the log after all events.
unfoldable pub recovered_rows : Stamp → List Job → List Row → List Row
recovered_rows now [] rows = rows
recovered_rows now (j ∷ js) rows = recovered_rows now js (recover_one now j rows)

abbrev pub event_of_recovery : ℕ → Time → Job → EventRow
event_of_recovery n at j =
    event_row n j.id (recovery_event (recovered_state j))
      (some (recovery_metadata (recovered_state j) (recovered_job j))) (format at)

unfoldable pub recovered_log : ℕ → Time → List Job → List EventRow → List EventRow
recovered_log n at [] vs = vs
recovered_log n at (j ∷ js) vs = recovered_log (suc n) at js (vs ++ event_of_recovery n at j ∷ [])

pub only_id : (id : Text) (x : Row) → is_leased_id id x ≡ true → eq_text x.id id ≡ true
only_id id x h = ground arith

pub still-IsRead :
    (now : Stamp) (j : Job) (rows : List Row) (js : List Job)
    → All (λ (k : Job). eq_text j.id k.id ≡ false) js
    → All (IsRead rows) js
    → All (IsRead (recover_one now j rows)) js
still-IsRead now j rows [] a h = tt
still-IsRead now j rows (k ∷ ks) a h = (
  record {
    row = h.0.row;
    found =
        untouched j.id k.id (is_leased_id j.id) _ rows (only_id j.id) (λ x. refl) a.0 ∙ h.0.found;
    is_lease = h.0.is_lease;
    max_attempts = h.0.max_attempts;
    retry_count = h.0.retry_count;
  },
  still-IsRead now j rows ks a.1 h.1,
)

pub chosen : (rows : List Row) (j : Job) (h : IsRead rows j) → is_leased_id j.id h.row ≡ true
chosen rows j h = ground (arith, find?-test (has_id j.id) rows h.row h.found, h.is_lease)

module _ (e : Env) (quiet : IsQuiet e) where
  pub recover_each_runs :
      (now : Stamp) (js : List Job) (w : World)
      → All (IsRead w.db.jobs) js
      → Differ js
      → recover_each e now js w ≡ (
        ok (map recovered_job js),
        record {
          db = set_jobs w.db (recovered_rows now js w.db.jobs);
          ticks = length js + w.ticks;
        },
      )
  unfolding recover_each ◌>>=◌ statement pure recovered_rows
  recover_each_runs now [] w h d = ground arith
  recover_each_runs now (j ∷ js) w h d =
      let (n, counted) =
        count-pos (is_leased_id j.id) (has_id j.id) w.db.jobs h.0.row h.0.found
          (chosen w.db.jobs j h.0) in
      let v : World = record {
        db = set_jobs w.db (recover_one now j w.db.jobs);
        ticks = suc w.ticks;
      } in
      let rest = recover_each_runs now js v (still-IsRead now j w.db.jobs js d.0 h.1) d.1 in
      rw (quiet w.ticks, counted, rest) (ground arith)

  pub record_recoveries_runs :
      (at : Time) (js : List Job) (w : World)
      → record_recoveries e at (map recovered_job js) w ≡ (
        ok tt,
        record {
          db = record w.db {
            events = recovered_log w.db.next_event at js w.db.events;
            next_event = length js + w.db.next_event;
          };
          ticks = length js + w.ticks;
        },
      )
  unfolding record_recoveries ◌>>=◌ statement pure recovered_log insert_event append_event
  record_recoveries_runs at [] w = ground arith
  record_recoveries_runs at (j ∷ js) w =
      let v : World = record {
        db =
            (insert_event j.id (recovery_event (recovered_state j))
              (some (recovery_metadata (recovered_state j) (recovered_job j))) at w.db).1;
        ticks = suc w.ticks;
      } in
      rw (quiet w.ticks, record_recoveries_runs at js v) (ground arith)
