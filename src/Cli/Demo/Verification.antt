-- ===== src/Cli/Demo/Verification.antt =====
-- `showHistoryVerification` of internal/cli/demo.go after any calls.
use local_first_job_queue.Prelude.{
  ◌≡◌, ◌++◌, refl, sym, ap, ◌∙◌, ℕ, suc, Bool, true, List, [], ◌∷◌, length, count, keep, take, map,
  arith,
}
use mathlib.Core.List.{reverse}
use local_first_job_queue.Prelude.Predicates.{All, All-keep}
use local_first_job_queue.Clock.{compare_stamp}
use local_first_job_queue.Archive.{Record, Line, decoded, verify, valid}
use local_first_job_queue.Archive.Exact.{IsAcceptedLine, job_ids, event_ids, verify_exact}
use local_first_job_queue.Archive.Fitting.{IsAccepted, ids_of}
use local_first_job_queue.Archive.Report.{valid_lem, verify_counts, record_lines}
use local_first_job_queue.Store.{Row, Db, World, Env, ok, statement, lift, pure, ◌>>=◌}
use local_first_job_queue.Store.Readable.{IsReadable, IsStamped}
use local_first_job_queue.Store.Queries.{
  sort_by, get_all_events, select_all_events, get_queue_stats, queue_stats,
}
use local_first_job_queue.Store.Queries.Pages.{All-sort_by, All-take}
use local_first_job_queue.Store.Listings.{
  QueueSnapshot, query_jobs, get_all_jobs, inspect, history_matches,
}
use local_first_job_queue.Statements.Reading.{Reads}
use local_first_job_queue.Journal.Outcomes.{IsRegular, IsKept, unchanged-Journal}
use local_first_job_queue.Journal.Records.{read_job, read_event, scan_all-read, scan_events-read}
use local_first_job_queue.Journal.Numbers.{records_of}
use local_first_job_queue.Calls.{Call, perform_all}
use local_first_job_queue.Calls.Inspection.{All-reverse_aux}
use local_first_job_queue.Calls.Replay.{IsLogged, perform_all-IsKept, new_world, new_world-IsKept}
use local_first_job_queue.Cli.{export_record}
use local_first_job_queue.Cli.Exporting.{
  exported_rows, exported-valid, length-map, get_job_histories-runs,
}
use local_first_job_queue.Cli.Demo.{show_history_verification, shown, all_histories}

-- The snapshot of tables whose timestamps parse.
abbrev snapshot : Db → QueueSnapshot
snapshot d = record {
  jobs =
      map read_job
        (sort_by (λ a b. compare_stamp b.created_at a.created_at) (keep (λ r. true) d.jobs));
  events = map read_event (take 1000 (reverse d.events));
  stats = queue_stats d;
}

inspect_runs :
    (e : Env) (w : World)
    → IsRegular e
    → Reads w.db
    → inspect e w ≡ (ok (snapshot w.db), record w { ticks = suc (suc (suc w.ticks)) })
unfolding inspect get_all_jobs query_jobs get_all_events select_all_events get_queue_stats ◌>>=◌
    statement lift pure
inspect_runs e w regular h =
    let order = λ (a b : Row). compare_stamp b.created_at a.created_at in
    rw
      (
        regular.quiet w.ticks,
        scan_all-read (sort_by order (keep (λ r. true) w.db.jobs))
            (All-sort_by IsReadable order _ (All-keep IsReadable (λ r. true) w.db.jobs h.jobs)),
        regular.quiet (suc w.ticks),
        scan_events-read (take 1000 (reverse w.db.events)) (
            All-take IsStamped 1000 (reverse w.db.events)
              (All-reverse_aux w.db.events [] h.log tt)),
        regular.quiet (suc (suc w.ticks)),
      )
      refl

-- What is left of a record in the archive: the token has `json:"-"`, so it is not written.
abbrev pub without_token : Record → Record
without_token r = record r { job = record r.job { lease_token = [] } }

read_lines :
    (read_back : Record → Line)
    → ((r : Record) → read_back r ≡ decoded (without_token r))
    → (rs : List Record) → map read_back rs ≡ map decoded (map without_token rs)
read_lines read_back h [] = refl
read_lines read_back h (r ∷ rs) = rw (h r, read_lines read_back h rs) refl

without_token-IsAccepted : (r : Record) → IsAccepted r → IsAccepted (without_token r)
without_token-IsAccepted r a = record {
  consistent = record {
    version = a.consistent.version;
    has_id = a.consistent.has_id;
    budget = a.consistent.budget;
    retries = a.consistent.retries;
    known_state = a.consistent.known_state;
    history = a.consistent.history;
  };
  ordered = a.ordered;
  timed = a.timed;
}

records_stay :
    (rs : List Record)
    → All IsAcceptedLine (map decoded rs)
    → All IsAcceptedLine (map decoded (map without_token rs))
records_stay [] h = tt
records_stay (r ∷ rs) h = (without_token-IsAccepted r h.0, records_stay rs h.1)

same_job_ids :
    (rs : List Record) → job_ids (map decoded (map without_token rs)) ≡ job_ids (map decoded rs)
same_job_ids [] = refl
same_job_ids (r ∷ rs) = ap (λ ids. r.job.id ∷ ids) (same_job_ids rs)

same_event_ids :
    (rs : List Record) → event_ids (map decoded (map without_token rs)) ≡ event_ids (map decoded rs)
same_event_ids [] = refl
same_event_ids (r ∷ rs) = ap (λ ids. ids_of r.events ++ ids) (same_event_ids rs)

-- The verifier accepts the records without their tokens where it accepts them with theirs.
valid-without_token :
    (rs : List Record)
    → valid (verify (map decoded rs)) ≡ true
    → valid (verify (map decoded (map without_token rs))) ≡ true
valid-without_token rs h =
    let (lines, jobs, events) = (verify_exact (map decoded rs)).0 h in
    (verify_exact (map decoded (map without_token rs))).1
      (records_stay rs lines, rw (same_job_ids rs) jobs, rw (same_event_ids rs) events)

all_records : (rs : List Record) → record_lines (map decoded rs) ≡ length rs
all_records [] = refl
all_records (r ∷ rs) = omega (arith, all_records rs)

count_everything : (rows : List Row) → count (history_matches all_histories) rows ≡ length rows
unfolding count history_matches
count_everything [] = refl
count_everything (r ∷ rs) = omega (arith, count_everything rs)

module _ (deep_equal : QueueSnapshot → QueueSnapshot → Bool) (read_back : Record → Line)
    (equal : (s : QueueSnapshot) → deep_equal s s ≡ true)
    (decodes : (r : Record) → read_back r ≡ decoded (without_token r)) where
  verification_runs :
      (e : Env) (regular : IsRegular e) (w : World) (kept : IsKept e w)
      → (n : ℕ) × (show_history_verification deep_equal read_back e w ≡ (
        ok (
            shown (record {
              exported = count (history_matches all_histories) w.db.jobs;
              verified = count (history_matches all_histories) w.db.jobs;
              issues = 0;
            })),
        record w { ticks = n },
      ))
  unfolding show_history_verification ◌>>=◌ pure
  verification_runs e regular w kept =
      let v : World = record w { ticks = suc (suc (suc w.ticks)) } in
      let kept' : IsKept e v = record {
        well = kept.well;
        reads = kept.reads;
        journal = unchanged-Journal e regular w kept v.ticks (omega arith);
      } in
      let h = get_job_histories-runs e regular all_histories v kept' in
      let u : World = record w { ticks = h.ticks } in
      let rs = records_of w.db.events (exported_rows all_histories w.db) in
      let lines = map decoded (map without_token rs) in
      let report = verify lines in
      let accepted : valid report ≡ true =
        valid-without_token rs (exported-valid e regular all_histories v kept') in
      let counts = verify_counts lines in
      let issues : report.issues ≡ [] = valid_lem report accepted in
      let total : report.valid_records ≡ count (history_matches all_histories) w.db.jobs =
        counts.1.0 accepted
        ∙ counts.0
        ∙ all_records (map without_token rs)
        ∙ length-map without_token rs
        ∙ sym (ap length h.records)
        ∙ length-map export_record h.histories
        ∙ h.count_lem in
      (
        suc (suc (suc h.ticks)),
        rw
            (
              inspect_runs e w regular kept.reads,
              h.runs,
              h.records,
              read_lines read_back decodes rs,
              inspect_runs e u regular kept.reads,
              accepted,
              equal (snapshot w.db),
              total,
              issues,
              h.count_lem,
            )
            refl,
      )

  -- From an empty database, after any calls but `LeaseJobByID` and `Fail` without a token, where no
  -- statement fails, the clock has started and does not go back, and no random id is empty, and
  -- where each line of the export decodes to the record that was written, without the lease token,
  -- and equal snapshots compare as equal: the check of the histories succeeds, with as many exported and verified
  -- histories as there are jobs and no issue, and the tables are as they were.
  pub show_history_verification_lem :
      (e : Env) (regular : IsRegular e) (cs : List Call) (n : ℕ)
      → All IsLogged cs
      → let w = perform_all e cs (new_world n) in
        let (r, v) = show_history_verification deep_equal read_back e w in
        (r
          ≡ ok (
              shown
                (record { exported = length w.db.jobs; verified = length w.db.jobs; issues = 0 })))
        × (v.db ≡ w.db)
  show_history_verification_lem e regular cs n l =
      let w = perform_all e cs (new_world n) in
      let (ticks, runs) =
        verification_runs e regular w
          (perform_all-IsKept e regular cs (new_world n) l (new_world-IsKept e n)) in
      rw runs (
        ap (λ k. ok (shown (record { exported = k; verified = k; issues = 0 })))
            (count_everything w.db.jobs),
        refl,
      )
