-- ===== src/Queue/Failing.antt =====
-- What a failure report does to the job that the worker holds.
use local_first_job_queue.Prelude.{
  ℕ, suc, ℤ, pos, ◌+ℤ◌, ◌≤ℤ◌, ◌<ℤ◌, ltb_ℤ, ◌⊎◌, ◌≡◌, ◌∙◌, refl, ap, inl, inr, true, false, none,
  some, [], ◌∷◌, ◌++◌, Text, eq_text, eq_text_refl, Bool-cases, arith,
}
use local_first_job_queue.Clock.{format}
use local_first_job_queue.Models.{
  Job, JobState, pending, dead_letter, EventType, Metadata, retried, dead_lettered, attempt_failed,
  exhausted_by,
}
use local_first_job_queue.Store.{Row, Db, World, Env, ok, time_now, statement, ◌>>=◌}
use local_first_job_queue.Store.Rows.{has_id, get_job, scan_job, scan_row, text_or_empty}
use local_first_job_queue.Store.Changes.{holds_lease, fail_row}
use local_first_job_queue.Store.Insert.{insert_event, event_row}
use local_first_job_queue.Store.Lookup.{find_id}
use local_first_job_queue.Statements.Exclusive.{IsHeld}
use local_first_job_queue.Queue.{
  fail, fail_known, failure_event, failure_metadata, should_retry, is_foreign,
}
use local_first_job_queue.Queue.Idempotency.{IsQuiet}
use local_first_job_queue.Queue.Outcomes.{count-pos, untouched, holds, updated, closed_db}

scan_job-lease_token :
    (r : Row) (j : Job) → scan_job r ≡ ok j → j.lease_token ≡ text_or_empty r.lease_token
unfolding scan_job
scan_job-lease_token r j h = ground (arith, h)

own_token :
    (id : Text) (c : ℕ) (cs : Text) (d : Db) (h : IsHeld id (c ∷ cs) d) (j : Job)
    → scan_job h.row ≡ ok j
    → is_foreign (c ∷ cs) j ≡ false
own_token id c cs d h j s =
    let t = scan_job-lease_token h.row j s ∙ ap text_or_empty h.owner in
    rw t (rw (eq_text_refl (c ∷ cs)) refl)

pub fail_runs :
    (e : Env) (w : World) (id : Text) (c : ℕ) (cs message : Text) (j : Job)
    → IsQuiet e
    → (h : IsHeld id (c ∷ cs) w.db) → scan_job h.row ≡ ok j
    → fail e id (c ∷ cs) message w ≡ (
      ok tt,
      record {
        db =
            closed_db id
              (c ∷ cs)
              (fail_row (should_retry j) (format (e.now (suc w.ticks))))
              (failure_event (should_retry j))
              (some (failure_metadata (should_retry j) j message))
              (e.now (suc (suc (suc w.ticks))))
              w.db;
        ticks = suc (suc (suc (suc (suc w.ticks))));
      },
    )
unfolding fail ◌>>=◌ time_now statement insert_event get_job scan_row fail_known
fail_runs e w id c cs message j quiet h scans =
    let (k, some_row) =
      count-pos (holds_lease id (c ∷ cs)) (has_id id) w.db.jobs h.row h.found
        (holds id c cs w.db h) in
    rw
      (
        quiet w.ticks,
        h.found,
        scans,
        own_token id c cs w.db h j scans,
        quiet (suc (suc w.ticks)),
        some_row,
        quiet (suc (suc (suc (suc w.ticks)))),
      )
      refl

fail_outcome :
    (e : Env) (w : World) (id : Text) (c : ℕ) (cs message : Text) (j : Job)
    → IsQuiet e
    → (h : IsHeld id (c ∷ cs) w.db) → scan_job h.row ≡ ok j
    → (other : Text) → eq_text other id ≡ false
    → let (r, v) = fail e id (c ∷ cs) message w in
      (r ≡ ok tt)
      × (find_id id v.db.jobs
          ≡ some (fail_row (should_retry j) (format (e.now (suc w.ticks))) h.row))
      × (find_id other v.db.jobs ≡ find_id other w.db.jobs)
      × (v.db.events
          ≡ w.db.events
            ++ event_row w.db.next_event id
                (failure_event (should_retry j))
                (some (failure_metadata (should_retry j) j message))
                (format (e.now (suc (suc (suc w.ticks)))))
              ∷ [])
unfolding insert_event
fail_outcome e w id c cs message j quiet h scans other n =
    rw (fail_runs e w id c cs message j quiet h scans) (
      refl,
      updated id c cs w.db h (fail_row (should_retry j) (format (e.now (suc w.ticks)))) (λ r. refl),
      untouched id other (c ∷ cs) (fail_row (should_retry j) (format (e.now (suc w.ticks))))
          w.db.jobs (λ r. refl) n,
      refl,
    )

-- The row and the event of a failed attempt, in a state and with an event and its metadata.
abbrev pub Failed : Env → World → Text → Row → JobState → EventType → Metadata → Db → Type 0
Failed e w id r state event_type metadata d =
    (find_id id d.jobs
      ≡ some (record r {
        state = state;
        retry_count = r.retry_count +ℤ pos 1;
        leased_until = none;
        lease_token = none;
        updated_at = format (e.now (suc w.ticks));
      }))
    × (d.events
        ≡ w.db.events
          ++ record {
            id = w.db.next_event;
            job_id = id;
            event_type = event_type;
            metadata = some metadata;
            timestamp = format (e.now (suc (suc (suc w.ticks))));
          }
            ∷ [])

scan_job-counts :
    (r : Row) (j : Job)
    → scan_job r ≡ ok j
    → (j.retry_count ≡ r.retry_count) × (j.max_attempts ≡ r.max_attempts)
unfolding scan_job
scan_job-counts r j h = ground (arith, h)

ltb_ℤ-cases : (a b : ℤ) → ((a <ℤ b) × (ltb_ℤ a b ≡ true)) ⊎ ((b ≤ℤ a) × (ltb_ℤ a b ≡ false))
ltb_ℤ-cases a b = elim (Bool-cases (ltb_ℤ a b)) [
  | inl q ↦ inl (ground (arith, q), q)
  | inr q ↦ inr (ground (arith, q), q)
]

-- Where no statement fails and the job's timestamps parse, a failure report that shows the token
-- under which the job is leased, a token that is not empty, returns no error. The job is without
-- its lease and has one attempt more: if the attempts are then fewer than the maximum, it is pending
-- and the event is that of a retry, and if not, it is in the dead letters and the event says so, both
-- with the attempts, the maximum and the error. Every other job is as it was.
pub fail_lem :
    (e : Env) (w : World) (id : Text) (c : ℕ) (cs message : Text) (j : Job)
    → IsQuiet e
    → (h : IsHeld id (c ∷ cs) w.db) → scan_job h.row ≡ ok j
    → (other : Text) → eq_text other id ≡ false
    → let (r, v) = fail e id (c ∷ cs) message w in
      let attempts = h.row.retry_count +ℤ pos 1 in
      let max_attempts = h.row.max_attempts in
      (r ≡ ok tt)
      × (find_id other v.db.jobs ≡ find_id other w.db.jobs)
      × (((attempts <ℤ max_attempts)
            × Failed e w id h.row pending retried
                (attempt_failed attempts max_attempts message)
                v.db)
          ⊎ ((max_attempts ≤ℤ attempts)
              × Failed e w id h.row dead_letter dead_lettered
                  (exhausted_by attempts max_attempts message)
                  v.db))
fail_lem e w id c cs message j quiet h scans other n =
    let (done, row, others, events) = fail_outcome e w id c cs message j quiet h scans other n in
    let (retries, budget) = scan_job-counts h.row j scans in
    (
      done,
      others,
      elim (ltb_ℤ-cases (h.row.retry_count +ℤ pos 1) h.row.max_attempts) [
        | inl (fits, q) ↦
            inl (fits, (rw (retries, budget, q) at row, rw (retries, budget, q) at events))
        | inr (spent, q) ↦
            inr (spent, (rw (retries, budget, q) at row, rw (retries, budget, q) at events))
      ],
    )
