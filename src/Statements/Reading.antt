-- ===== src/Statements/Reading.antt =====
-- Rows that read back stay so, and what a listing then gives.
use local_first_job_queue.Prelude.{Bool, List, [], ◌∷◌, Option-cases, find?, inl, inr}
use local_first_job_queue.Prelude.Predicates.{All, All-snoc, All-keep}
use local_first_job_queue.Clock.RoundTrip.{parse-format}
use local_first_job_queue.Store.{Row, Db, empty}
use local_first_job_queue.Store.Rows.{has_id, update_where}
use local_first_job_queue.Store.Insert.{insert_row, row_of, conflicting}
use local_first_job_queue.Store.Readable.{
  IsStamped, IsReadable, row_of-IsReadable, release_row-IsReadable, lease_row-IsReadable,
  renew_row-IsReadable, requeue_row-IsReadable,
}
use local_first_job_queue.Queue.{new_job}
use local_first_job_queue.Statements.{
  Statement, inserts, claims, claims_id, completes, fails, renews, requeues, recovers, appends,
  deletes_old_events, deletes_old_jobs, trims, records_run, run, run_all,
}
use local_first_job_queue.Statements.Shape.{All-update_where}

changed :
    (p : Row → Bool) (f : Row → Row) (d : Db)
    → ((r : Row) → IsReadable r → IsReadable (f r))
    → All IsReadable d.jobs
    → All IsReadable (update_where p f d.jobs)
changed p f d k = All-update_where IsReadable p f d.jobs (λ r q. k r)

insert-IsReadable :
    (row : Row) (d : Db)
    → IsReadable row
    → All IsReadable d.jobs
    → All IsReadable (insert_row row d).1.jobs
unfolding insert_row
insert-IsReadable row d k h = elim (Option-cases (conflicting row.idempotency_key d.jobs)) [
  | inr (held, q) ↦ rw q h
  | inl q ↦ elim (Option-cases (find? (has_id row.id) d.jobs)) [
    | inr (taken, r) ↦ rw (q, r) h
    | inl r ↦ rw (q, r) (All-snoc IsReadable d.jobs row h k)
  ]
]

insert_row-events :
    (row : Row) (d : Db) → All IsStamped d.events → All IsStamped (insert_row row d).1.events
unfolding insert_row
insert_row-events row d h = elim (Option-cases (conflicting row.idempotency_key d.jobs)) [
  | inr (held, q) ↦ rw q h
  | inl q ↦ elim (Option-cases (find? (has_id row.id) d.jobs)) [
    | inr (taken, r) ↦ rw (q, r) h
    | inl r ↦ rw (q, r) h
  ]
]

-- Every timestamp of the jobs and of the events parses.
pub record Reads (d : Db) : Type 0 where
  pub jobs : All IsReadable d.jobs
  pub log : All IsStamped d.events

pub empty-Reads : Reads empty
empty-Reads = record { jobs = tt; log = tt }

-- Every statement writes times that parse.
pub run-IsReadable :
    (s : Statement) (d : Db) → All IsReadable d.jobs → All IsReadable (run s d).jobs
unfolding run
run-IsReadable (inserts id kind payload cfg now) d h =
    insert-IsReadable (row_of (new_job id kind payload cfg now)) d
      (row_of-IsReadable (new_job id kind payload cfg now)) h
run-IsReadable (claims e kind now until token) d h =
    changed _ _ d (λ r k. lease_row-IsReadable now r k until token) h
run-IsReadable (claims_id id now until token) d h =
    changed _ _ d (λ r k. lease_row-IsReadable now r k until token) h
run-IsReadable (completes id token now) d h =
    changed _ _ d (λ r k. release_row-IsReadable now r k _ _) h
run-IsReadable (fails id token retry now) d h =
    changed _ _ d (λ r k. release_row-IsReadable now r k _ _) h
run-IsReadable (renews id token now until) d h =
    changed _ _ d (λ r k. renew_row-IsReadable now r k until) h
run-IsReadable (requeues id n payload now) d h =
    changed _ _ d (λ r k. requeue_row-IsReadable now r k n payload) h
run-IsReadable (recovers now j) d h = changed _ _ d (λ r k. release_row-IsReadable now r k _ _) h
run-IsReadable (appends id t m at) d h = h
run-IsReadable (deletes_old_events cutoff) d h = h
run-IsReadable (deletes_old_jobs cutoff) d h = All-keep IsReadable _ d.jobs h
run-IsReadable (trims limit) d h = h
run-IsReadable (records_run started source p res) d h = h

run-IsStamped : (s : Statement) (d : Db) → All IsStamped d.events → All IsStamped (run s d).events
unfolding run
run-IsStamped (inserts id kind payload cfg now) d h =
    insert_row-events (row_of (new_job id kind payload cfg now)) d h
run-IsStamped (appends id t m at) d h = All-snoc IsStamped d.events _ h (at, parse-format at)
run-IsStamped (deletes_old_events cutoff) d h = All-keep IsStamped _ d.events h
run-IsStamped (trims limit) d h = All-keep IsStamped _ d.events h
run-IsStamped _ d h = h

-- Whatever statements run, in whatever order, every timestamp still parses.
pub run_all-Reads : (ss : List Statement) (d : Db) → Reads d → Reads (run_all ss d)
unfolding run_all
run_all-Reads [] d h = h
run_all-Reads (s ∷ ss) d h =
    run_all-Reads ss (run s d)
      (record { jobs = run-IsReadable s d h.jobs; log = run-IsStamped s d h.log })
