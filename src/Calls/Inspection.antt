-- ===== src/Calls/Inspection.antt =====
-- Timestamps parse after a history of calls, and so listings succeed.
use local_first_job_queue.Prelude.{
  suc, ◌+◌, ◌≡◌, refl, Bool, true, false, List, [], ◌∷◌, length, count, keep, take, arith, Ordering,
}
use mathlib.Core.List.{reverse, reverse_aux}
use mathlib.Core.Path.{subst}
use Prim.Native.Nat.{min}
use local_first_job_queue.Prelude.Predicates.{All, All-keep}
use local_first_job_queue.Models.{Job, Event}
use local_first_job_queue.Store.{Row, EventRow, World, Env, ok, statement, lift, ◌>>=◌}
use local_first_job_queue.Store.Readable.{
  IsReadable, IsStamped, scan_all-IsReadable, scan_events-IsStamped,
}
use local_first_job_queue.Store.Queries.{sort_by, get_all_events, select_all_events}
use local_first_job_queue.Store.Queries.Pages.{
  All-sort_by, All-take, length-sort_by, length-keep, length-take,
}
use local_first_job_queue.Store.Listings.{query_jobs}
use local_first_job_queue.Statements.Reading.{Reads, run_all-Reads}
use local_first_job_queue.Calls.{Call, perform, perform_all, perform-Follows}

-- From tables whose timestamps parse, whatever calls are made, and whatever fails in them, every
-- timestamp in the tables still parses.
pub perform_all-Reads :
    (e : Env) (cs : List Call) (w : World) → Reads w.db → Reads (perform_all e cs w).db
unfolding perform_all
perform_all-Reads e [] w h = h
perform_all-Reads e (c ∷ cs) w h =
    let f = perform-Follows e c w in
    perform_all-Reads e cs (perform e c w)
      (subst Reads f.result (run_all-Reads f.statements w.db h))

pub All-reverse_aux :
    (vs acc : List EventRow)
    → All IsStamped vs
    → All IsStamped acc
    → All IsStamped (reverse_aux vs acc)
All-reverse_aux [] acc h k = k
All-reverse_aux (v ∷ vs) acc h k = All-reverse_aux vs (v ∷ acc) h.1 (h.0, k)

length-reverse_aux : (vs acc : List EventRow) → length (reverse_aux vs acc) ≡ length vs + length acc
length-reverse_aux [] acc = omega arith
length-reverse_aux (v ∷ vs) acc = omega (arith, length-reverse_aux vs (v ∷ acc))

module _ (e : Env) (p : Row → Bool) (order : Row → Row → Ordering) (w : World)
    (h : Reads w.db) where
  -- A listing gives one job for each row that it selects.
  pub query_jobs-Reads :
      e.fails w.ticks ≡ false
      → (js : List Job) × (query_jobs e p order w ≡ (ok js, record w { ticks = suc w.ticks }))
        × (length js ≡ count p w.db.jobs)
  unfolding query_jobs ◌>>=◌ statement lift
  query_jobs-Reads q =
      let (js, scans, same) =
        scan_all-IsReadable (sort_by order (keep p w.db.jobs))
          (All-sort_by IsReadable order _ (All-keep IsReadable p w.db.jobs h.jobs)) in
      (
        js,
        rw (q, scans) refl,
        omega (arith, same, length-sort_by order (keep p w.db.jobs), length-keep p w.db.jobs),
      )

count-all : (rows : List Row) → count (λ r. true) rows ≡ length rows
unfolding count
count-all [] = refl
count-all (r ∷ rs) = omega (arith, count-all rs)

get_all_events-Reads :
    (e : Env) (w : World)
    → Reads w.db
    → e.fails w.ticks ≡ false
    → (vs : List Event) × (get_all_events e w ≡ (ok vs, record w { ticks = suc w.ticks }))
      × (length vs ≡ min 1000 (length w.db.events))
unfolding get_all_events select_all_events ◌>>=◌ statement lift
get_all_events-Reads e w h q =
    let newest = take 1000 (reverse w.db.events) in
    let (vs, scans, same) =
      scan_events-IsStamped newest
        (All-take IsStamped 1000 (reverse w.db.events) (All-reverse_aux w.db.events [] h.log tt)) in
    (
      vs,
      rw (q, scans) refl,
      omega
          (arith, same, length-take 1000 (reverse w.db.events), length-reverse_aux w.db.events []),
    )
