-- ===== src/Calls/Snapshot.antt =====
-- What `Inspect` of internal/queue/queue.go shows after a history of calls.
use local_first_job_queue.Prelude.{
  suc, ◌≡◌, refl, ap, true, false, List, [], ◌∷◌, map, count, keep, take, Bool-cases, inl, inr,
  Ordering,
}
use mathlib.Core.List.{reverse, Perm}
use mathlib.Core.List.Perm
use mathlib.Core.Path.{subst}
use local_first_job_queue.Prelude.Predicates.{All-keep}
use local_first_job_queue.Clock.{compare_stamp, is_gt}
use local_first_job_queue.Models.{JobState}
use local_first_job_queue.Store.{Row, World, Env, ok, statement, lift, ◌>>=◌}
use local_first_job_queue.Store.Readable.{IsReadable, IsStamped}
use local_first_job_queue.Store.Queries.{
  sort_by, insert_by, get_all_events, select_all_events, get_queue_stats, queue_stats, eq_state,
}
use local_first_job_queue.Store.Queries.Pages.{All-sort_by, All-take}
use local_first_job_queue.Store.Queries.Tally.{Tally, count-Tally}
use local_first_job_queue.Store.Listings.{QueueSnapshot, query_jobs, get_all_jobs, inspect}
use local_first_job_queue.Statements.Reading.{Reads}
use local_first_job_queue.Journal.Records.{read_job, read_event, scan_all-read, scan_events-read}
use local_first_job_queue.Calls.{Call, perform_all}
use local_first_job_queue.Calls.Inspection.{perform_all-Reads, All-reverse_aux}

insert_by-perm :
    (cmp : Row → Row → Ordering) (r : Row) (rows : List Row)
    → Perm (insert_by cmp r rows) (r ∷ rows)
unfolding insert_by
insert_by-perm cmp r [] = Perm.rfl
insert_by-perm cmp r (s ∷ ss) = elim (Bool-cases (is_gt (cmp r s))) [
  | inl q ↦ rw q (Perm.trans (Perm.cons s (insert_by-perm cmp r ss)) (Perm.swap r s ss))
  | inr q ↦ rw q Perm.rfl
]

sort_by-perm : (cmp : Row → Row → Ordering) (rows : List Row) → Perm (sort_by cmp rows) rows
unfolding sort_by
sort_by-perm cmp [] = Perm.rfl
sort_by-perm cmp (r ∷ rs) =
    Perm.trans (insert_by-perm cmp r (sort_by cmp rs)) (Perm.cons r (sort_by-perm cmp rs))

keep-everything : (rows : List Row) → keep (λ (r : Row). true) rows ≡ rows
unfolding keep
keep-everything [] = refl
keep-everything (r ∷ rs) = ap (λ xs. r ∷ xs) (keep-everything rs)

-- After any calls on tables whose timestamps parse, whatever failed in them, `Inspect` succeeds
-- where its three queries do, and the tables are as they were. The jobs of the snapshot are those of
-- the rows, each once, in some order; its events are those of the log, newest first, up to a
-- thousand; and its statistics are, for every state, the number of jobs in it.
pub inspect-perform_all :
    (e : Env) (cs : List Call) (w : World)
    → Reads w.db
    → let v = perform_all e cs w in
      e.fails v.ticks ≡ false
      → e.fails (suc v.ticks) ≡ false
      → e.fails (suc (suc v.ticks)) ≡ false
      → (snap : QueueSnapshot) × (inspect e v
          ≡ (ok snap, record v { ticks = suc (suc (suc v.ticks)) }))
        × ((rows : List Row) × Perm rows v.db.jobs × (snap.jobs ≡ map read_job rows))
        × (snap.events ≡ map read_event (take 1000 (reverse v.db.events)))
        × ((s : JobState) → Tally s v.db.jobs (snap.stats s))
unfolding inspect get_all_jobs query_jobs get_all_events select_all_events get_queue_stats
    queue_stats statement lift ◌>>=◌
inspect-perform_all e cs w h a b c =
    let v = perform_all e cs w in
    let reads = perform_all-Reads e cs w h in
    let order = λ (x y : Row). compare_stamp y.created_at x.created_at in
    let rows = sort_by order (keep (λ r. true) v.db.jobs) in
    let listed =
      scan_all-read rows
        (All-sort_by IsReadable order _ (All-keep IsReadable (λ r. true) v.db.jobs reads.jobs)) in
    let logged = scan_events-read (take 1000 (reverse v.db.events)) (
      All-take IsStamped 1000 (reverse v.db.events)
        (All-reverse_aux v.db.events [] reads.log tt)) in
    (
      record {
        jobs = map read_job rows;
        events = map read_event (take 1000 (reverse v.db.events));
        stats = λ s. count (λ r. eq_state r.state s) v.db.jobs;
      },
      rw (a, listed, b, logged, c) refl,
      (rows, subst (Perm rows) (keep-everything v.db.jobs) (sort_by-perm order _), refl),
      refl,
      λ s. count-Tally s v.db.jobs,
    )
