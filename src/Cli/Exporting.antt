-- ===== src/Cli/Exporting.antt =====
-- What `Export` of internal/cli/export.go writes, `Verify` of internal/cli/verify.go accepts.
use local_first_job_queue.Prelude.{
  ◌≡◌, refl, subst, ap, ◌∙◌, ℕ, suc, inl, inr, Bool, true, some, List, [], ◌∷◌, Text, eq_text,
  eq_text_iff, eq_text_refl, keep, arith, pos, map, Bool-cases, length, count,
}
use local_first_job_queue.Prelude.Predicates.{All, All-keep}
use local_first_job_queue.Models.{Event}
use local_first_job_queue.Archive.{Record, decoded, verify, valid}
use local_first_job_queue.Archive.Exact.{IsAcceptedLine, verify_exact}
use local_first_job_queue.Store.{Row, EventRow, Db, World, Env, ok, pure, lift, statement, ◌>>=◌}
use local_first_job_queue.Store.Prune.{is_listed}
use local_first_job_queue.Store.Lookup.{find_id, find_id-each, keep-test}
use local_first_job_queue.Store.Readable.{IsReadable, IsStamped}
use local_first_job_queue.Store.Queries.{sort_by}
use local_first_job_queue.Store.Queries.Pages.{All-sort_by, length-sort_by, length-keep}
use local_first_job_queue.Store.Queries.Separate.{Separate, Separate-of, Separate-sort_by}
use local_first_job_queue.Store.Columns.{id_column, Distinct-keep}
use local_first_job_queue.Store.Listings.{
  HistoryFilter, JobHistory, get_job_histories, history_matches, history_order, history_of,
  with_events, select_history_events,
}
use local_first_job_queue.Statements.Shape.{Ascends-keep}
use local_first_job_queue.Journal.{Told, Tells, log_of}
use local_first_job_queue.Journal.Outcomes.{IsRegular, IsKept}
use local_first_job_queue.Journal.Records.{
  read_job, read_event, record_of, scan_all-read, scan_events-read, Told-IsAccepted,
}
use local_first_job_queue.Journal.Numbers.{records_of, lines_of, jobs-AllNew, events-AllNew}
use local_first_job_queue.Calls.{Call, perform_all}
use local_first_job_queue.Calls.Replay.{IsLogged, perform_all-IsKept, new_world, new_world-IsKept}
use local_first_job_queue.Cli.{
  export_command, export_record, exported, run_command, verify_command, printed,
}

keep-map {ℓ κ} :
    {A : Type ℓ} {B : Type κ} (p : B → Bool) (f : A → B) (xs : List A)
    → keep p (map f xs) ≡ map f (keep (λ x. p (f x)) xs)
unfolding keep
keep-map p f [] = refl
keep-map p f (x ∷ xs) = elim (Bool-cases (p (f x))) [
  | inl q ↦ rw (q, keep-map p f xs) refl
  | inr q ↦ rw (q, keep-map p f xs) refl
]

-- The events of listed jobs, those of one listed job among them.
log_of-listed :
    (id : Text) (g : Text → Bool) (vs : List EventRow)
    → g id ≡ true
    → log_of id (keep (λ (v : EventRow). g v.job_id) vs) ≡ log_of id vs
unfolding keep
log_of-listed id g [] h = refl
log_of-listed id g (v ∷ vs) h = elim (Bool-cases (eq_text v.job_id id)) [
  | inl q ↦
      rw (ap g ((eq_text_iff v.job_id id).0 q) ∙ h, q) (ap (λ xs. v ∷ xs) (log_of-listed id g vs h))
  | inr q ↦ elim (Bool-cases (g v.job_id)) [
    | inl y ↦ rw (y, q) (log_of-listed id g vs h)
    | inr y ↦ rw (y, q) (log_of-listed id g vs h)
  ]
]

listed_later :
    (r : Row) (rows xs : List Row)
    → All (λ x. is_listed x.id rows ≡ true) xs
    → All (λ x. is_listed x.id (r ∷ rows) ≡ true) xs
unfolding is_listed
listed_later r rows [] h = tt
listed_later r rows (x ∷ xs) h = (ground (arith, h.0), listed_later r rows xs h.1)

each_listed : (rows : List Row) → All (λ x. is_listed x.id rows ≡ true) rows
unfolding is_listed
each_listed [] = tt
each_listed (r ∷ rs) = (rw (eq_text_refl r.id) refl, listed_later r rs rs (each_listed rs))

abbrev listed_events : List Row → List EventRow → List EventRow
listed_events listed events = keep (λ (v : EventRow). is_listed v.job_id listed) events

record_lem :
    (listed : List Row) (events : List EventRow) (r : Row)
    → is_listed r.id listed ≡ true
    → export_record (history_of (map read_event (listed_events listed events)) (read_job r))
      ≡ record_of r (log_of r.id events)
record_lem listed events r h =
    ap (λ (vs : List Event). record { schema_version = pos 1; job = read_job r; events = vs })
      (keep-map (λ (v : Event). eq_text v.job_id r.id) read_event (listed_events listed events)
        ∙ ap (map read_event) (log_of-listed r.id (λ t. is_listed t listed) events h))

records_lem :
    (listed : List Row) (events : List EventRow) (rows : List Row)
    → All (λ x. is_listed x.id listed ≡ true) rows
    → map export_record
        (map (history_of (map read_event (listed_events listed events))) (map read_job rows))
      ≡ records_of events rows
records_lem listed events [] h = refl
records_lem listed events (r ∷ rs) h =
    rw (record_lem listed events r h.0, records_lem listed events rs h.1) refl

pub length-map {ℓ κ} :
    {A : Type ℓ} {B : Type κ} (f : A → B) (xs : List A) → length (map f xs) ≡ length xs
length-map f [] = refl
length-map f (x ∷ xs) = ap suc (length-map f xs)

-- The rows of an export, in their order.
abbrev pub exported_rows : HistoryFilter → Db → List Row
exported_rows f d = sort_by (history_order d.events) (keep (history_matches f) d.jobs)

-- The ticks after the second query, if there is one.
abbrev ticks_after : List Row → ℕ → ℕ
ticks_after [] n = n
ticks_after (r ∷ rs) n = suc n

module _ (e : Env) (regular : IsRegular e) (f : HistoryFilter) where
  with_events_runs :
      (rows : List Row) (w : World)
      → All IsStamped w.db.events
      → with_events e f (map read_job rows) w ≡ (
        ok (
            map
              (history_of
                (map read_event (listed_events (keep (history_matches f) w.db.jobs) w.db.events)))
              (map read_job rows)),
        record w { ticks = ticks_after rows w.ticks },
      )
  unfolding with_events select_history_events ◌>>=◌ statement pure
  with_events_runs [] w h = refl
  with_events_runs (r ∷ rs) w h =
      let listed = keep (history_matches f) w.db.jobs in
      rw
        (
          regular.quiet w.ticks,
          scan_events-read (listed_events listed w.db.events)
              (All-keep IsStamped (λ (v : EventRow). is_listed v.job_id listed) w.db.events h),
        )
        refl

  module _ (w : World) (kept : IsKept e w) where
    All-listed :
        All (λ x. is_listed x.id (keep (history_matches f) w.db.jobs) ≡ true) (exported_rows f w.db)
    All-listed =
        All-sort_by _ (history_order w.db.events) (keep (history_matches f) w.db.jobs)
          (each_listed (keep (history_matches f) w.db.jobs))

    -- The histories are read, and make the records of the rows.
    pub record Histories : Type 0 where
      pub histories : List JobHistory
      pub ticks : ℕ
      pub runs : get_job_histories e f w ≡ (ok histories, record w { ticks = ticks })
      pub records : map export_record histories ≡ records_of w.db.events (exported_rows f w.db)
      pub count_lem : length histories ≡ count (history_matches f) w.db.jobs

    pub get_job_histories-runs : Histories
    unfolding get_job_histories ◌>>=◌ statement pure lift
    get_job_histories-runs =
        let rows = exported_rows f w.db in
        let listed = keep (history_matches f) w.db.jobs in
        let readable : All IsReadable rows =
          All-sort_by IsReadable (history_order w.db.events) _
            (All-keep IsReadable (history_matches f) w.db.jobs kept.reads.jobs) in
        record {
          histories =
              map (history_of (map read_event (listed_events listed w.db.events)))
                (map read_job rows);
          ticks = ticks_after rows (suc w.ticks);
          runs =
              rw
                (
                  regular.quiet w.ticks,
                  scan_all-read rows readable,
                  with_events_runs rows (record w { ticks = suc w.ticks }) kept.reads.log,
                )
                refl;
          records = records_lem listed w.db.events rows All-listed;
          count_lem =
              length-map _ (map read_job rows)
              ∙ length-map read_job rows
              ∙ length-sort_by (history_order w.db.events) listed
              ∙ length-keep (history_matches f) w.db.jobs;
        }

    exports : export_command e f [] w ≡ (
      printed (records_of w.db.events (exported_rows f w.db)),
      record w { ticks = get_job_histories-runs.ticks },
    )
    unfolding export_command run_command exported ◌>>=◌ pure
    exports = let h = get_job_histories-runs in rw (h.runs, h.records) refl

    accepted_lines :
        (rows : List Row)
        → All (λ r. find_id r.id w.db.jobs ≡ some r) rows
        → All IsAcceptedLine (lines_of w.db.events rows)
    accepted_lines [] h = tt
    accepted_lines (r ∷ rs) h =
        let told : Told (e.now w.ticks) r (log_of r.id w.db.events) =
          subst (λ o. Tells (e.now w.ticks) o (log_of r.id w.db.events)) h.0 (kept.journal r.id) in
        (
          Told-IsAccepted (e.now w.ticks) w.db.next_event r (log_of r.id w.db.events) told
              (keep-test (λ (v : EventRow). eq_text v.job_id r.id) w.db.events)
              (Ascends-keep (λ (v : EventRow). eq_text v.job_id r.id) 0 w.db.next_event w.db.events
                kept.well.log),
          accepted_lines rs h.1,
        )

    pub exported-valid : valid (verify (lines_of w.db.events (exported_rows f w.db))) ≡ true
    exported-valid =
        let rows = exported_rows f w.db in
        let found : All (λ r. find_id r.id w.db.jobs ≡ some r) rows =
          All-sort_by _ (history_order w.db.events) _
            (All-keep _ (history_matches f) w.db.jobs (find_id-each w.db.jobs kept.well.ids)) in
        let separate : Separate rows =
          Separate-sort_by (history_order w.db.events) _
            (Separate-of _ (Distinct-keep id_column (history_matches f) w.db.jobs kept.well.ids)) in
        (verify_exact (lines_of w.db.events rows)).1 (
          accepted_lines rows found,
          jobs-AllNew w.db.events rows [] separate tt,
          events-AllNew w.db.events w.db.next_event kept.well.log rows [] separate tt,
        )

-- From an empty database, after any calls but `LeaseJobByID` and `Fail` without a token, where no
-- statement fails, the clock has started and does not go back, and no random id is empty: `Export`
-- succeeds and changes no table, with a record for each job that its filter takes; and `Verify`,
-- of an archive whose lines decode to these records, reports no issue.
pub export_command-verifies :
    (e : Env) (regular : IsRegular e) (f : HistoryFilter) (cs : List Call) (n : ℕ)
    → All IsLogged cs
    → let v = perform_all e cs (new_world n) in
      (rs : List Record) × ((export_command e f [] v).0 ≡ printed rs)
      × ((export_command e f [] v).1.db ≡ v.db)
      × (length rs ≡ count (history_matches f) v.db.jobs)
      × (verify_command (map decoded rs) [] ≡ printed (verify (map decoded rs)))
unfolding verify_command
export_command-verifies e regular f cs n l =
    let v = perform_all e cs (new_world n) in
    let kept = perform_all-IsKept e regular cs (new_world n) l (new_world-IsKept e n) in
    let runs = exports e regular f v kept in
    let rows = exported_rows f v.db in
    (
      records_of v.db.events rows,
      rw runs refl,
      rw runs refl,
      length-map _ rows
          ∙ length-sort_by (history_order v.db.events) _
          ∙ length-keep (history_matches f) v.db.jobs,
      rw (exported-valid e regular f v kept) refl,
    )
