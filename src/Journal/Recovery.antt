-- ===== src/Journal/Recovery.antt =====
-- A recovery, which updates all expired leases and then appends all their events, keeps the log of
-- each job in step with its row.
use local_first_job_queue.Prelude.{
  ◌≡◌, refl, sym, subst, ◌∙◌, ℕ, inl, inr, true, false, some, List, [], ◌∷◌, Text, eq_text,
  eq_text_iff, arith, Bool-cases, suc, ◌+◌, ◌++◌, ◌≤◌, ◌<◌, pos, ◌+ℤ◌, +ℤ_parts, leb_ℤ, length,
  keep,
}
use local_first_job_queue.Prelude.Predicates.{All, All-keep, Distinct, IsNew, eq_text-sym_false}
use local_first_job_queue.Clock.{Time, Stamp, format}
use local_first_job_queue.Models.{Job, leased}
use local_first_job_queue.Store.{
  Row, EventRow, World, Env, ok, time_now, statement, lift, pure, ◌>>=◌,
}
use local_first_job_queue.Store.Rows.{set_jobs, scan_all}
use local_first_job_queue.Store.Columns.{column, id_column, Distinct-keep}
use local_first_job_queue.Store.Changes.{release_row}
use local_first_job_queue.Store.Lookup.{find_id, find_id-each, find_id-update_where, keep-test}
use local_first_job_queue.Store.Readable.{IsReadable, scanned, scan_job-IsReadable}
use local_first_job_queue.Store.Recover.{
  is_orphan, next_attempt, recovered_state, is_leased_id, recover_orphaned_leases, select_orphans,
}
use local_first_job_queue.Queue.{recover, recovery_event}
use local_first_job_queue.Journal.{
  Told, Tells, Tells-later, Told-snoc, log_of, HasBudget, Allowed, recovered-Allowed,
  dead_lettered-Allowed,
}
use local_first_job_queue.Journal.Change.{untouched, log_of-snoc, log_of-snoc_other}
use local_first_job_queue.Journal.Outcomes.{IsRegular, IsKept, IsJournal, leased_lem}
use local_first_job_queue.Journal.Runs.{
  IsRead, Differ, recover_one, recovered_rows, event_of_recovery, recovered_log, only_id,
  still-IsRead, chosen, recover_each_runs, record_recoveries_runs,
}

release_row-HasBudget :
    (now : Stamp) (j : Job) (r : Row)
    → j.max_attempts ≡ r.max_attempts
    → j.retry_count ≡ r.retry_count
    → r.state ≡ leased
    → HasBudget r
    → HasBudget (release_row (recovered_state j) (next_attempt j) now r)
release_row-HasBudget now j r m k s c =
    let left = c.attempt_left (rw s) in
    let parts = +ℤ_parts r.retry_count (pos 1) in
    rw (m, k)
      (elim (Bool-cases (leb_ℤ r.max_attempts (r.retry_count +ℤ pos 1))) [
        | inl q ↦ rw q (record {
          budget = c.budget;
          retries = ground (arith, c.retries, parts);
          within = ground (arith, left, parts);
          attempt_left = λ z. cc;
        })
        | inr q ↦ rw q (record {
          budget = c.budget;
          retries = ground (arith, c.retries, parts);
          within = ground (arith, left, parts);
          attempt_left = λ _. ground (arith, parts);
        })
      ])

recovery-Allowed :
    (j : Job) → Allowed leased (recovery_event (recovered_state j)) (recovered_state j)
recovery-Allowed j = elim (Bool-cases (leb_ℤ j.max_attempts (next_attempt j))) [
  | inl q ↦ rw q dead_lettered-Allowed
  | inr q ↦ rw q recovered-Allowed
]

-- The jobs of other ids.
rows_untouched :
    (now : Stamp) (other : Text) (js : List Job) (rows : List Row)
    → All (λ (k : Job). eq_text other k.id ≡ false) js
    → find_id other (recovered_rows now js rows) ≡ find_id other rows
unfolding recovered_rows
rows_untouched now other [] rows h = refl
rows_untouched now other (j ∷ js) rows h =
    rows_untouched now other js _ h.1
    ∙ untouched j.id other (is_leased_id j.id) _ rows (only_id j.id) (λ x. refl)
        (eq_text-sym_false other j.id h.0)

log_untouched :
    (n : ℕ) (at : Time) (other : Text) (js : List Job) (vs : List EventRow)
    → All (λ (k : Job). eq_text other k.id ≡ false) js
    → log_of other (recovered_log n at js vs) ≡ log_of other vs
unfolding recovered_log
log_untouched n at other [] vs h = refl
log_untouched n at other (j ∷ js) vs h =
    log_untouched (suc n) at other js _ h.1
    ∙ log_of-snoc_other other vs (event_of_recovery n at j) (eq_text-sym_false other j.id h.0)

module _ (mid now at high : Time) (a : mid ≤ now) (b : now ≤ high) (c : mid ≤ at) (d : at ≤ high)
    (p : 0 < at) where
  Told-once :
      (n : ℕ) (j : Job) (rows : List Row) (vs : List EventRow) (h : IsRead rows j)
      → Told mid h.row vs
      → Told high
          (release_row (recovered_state j) (next_attempt j) (format now) h.row)
          (vs ++ event_of_recovery n at j ∷ [])
  Told-once n j rows vs h told =
      let state = leased_lem h.row h.is_lease in
      Told-snoc mid high at h.row _ vs _ told
        (record {
          named = told.sound.named;
          counts =
              release_row-HasBudget (format now) j h.row h.max_attempts h.retry_count (sym state)
                told.sound.counts;
          created = told.sound.created;
          updated = now;
          created_ok = told.sound.created_ok;
          updated_ok = refl;
          ordered = omega (arith, told.sound.ordered, told.sound.past);
          past = b;
        })
        (subst (λ s. Allowed s (recovery_event (recovered_state j)) (recovered_state j)) state
          (recovery-Allowed j))
        refl p c d

  recovered-Tells :
      (n : ℕ) (js : List Job) (rows : List Row) (vs : List EventRow)
      → All (IsRead rows) js
      → Differ js
      → (other : Text) → Tells mid (find_id other rows) (log_of other vs)
      → Tells high
          (find_id other (recovered_rows (format now) js rows))
          (log_of other (recovered_log n at js vs))
  unfolding recovered_rows recovered_log
  recovered-Tells n [] rows vs h k other t = Tells-later mid high _ _ t (omega arith)
  recovered-Tells n (j ∷ js) rows vs h k other t =
      let now_rows = recover_one (format now) j rows in
      let v = event_of_recovery n at j in
      elim (Bool-cases (eq_text j.id other)) [
        | inl q ↦
            let same = (eq_text_iff j.id other).0 q in
            let differ : All (λ (x : Job). eq_text j.id x.id ≡ false) js = k.0 in
            let told : Told mid h.0.row (log_of j.id vs) =
              subst (λ o. Tells mid o (log_of j.id vs)) h.0.found
                (subst (λ x. Tells mid (find_id x rows) (log_of x vs)) (sym same) t) in
            let row : find_id j.id now_rows
                ≡ some (release_row (recovered_state j) (next_attempt j) (format now) h.0.row) =
              find_id-update_where j.id (is_leased_id j.id) _ rows (λ x. refl)
              ∙ rw (h.0.found, chosen rows j h.0) refl in
            subst
              (λ x.
                Tells high (find_id x (recovered_rows (format now) js now_rows))
                  (log_of x (recovered_log (suc n) at js (vs ++ v ∷ []))))
              same
              (rw
                (
                  rows_untouched (format now) j.id js now_rows differ ∙ row,
                  log_untouched (suc n) at j.id js (vs ++ v ∷ []) differ
                      ∙ log_of-snoc j.id vs v refl,
                )
                (Told-once n j rows (log_of j.id vs) h.0 told))
        | inr q ↦
            recovered-Tells (suc n) js now_rows (vs ++ v ∷ [])
              (still-IsRead (format now) j rows js k.0 h.1) k.1 other
              (rw
                (
                  untouched j.id other (is_leased_id j.id)
                      (release_row (recovered_state j) (next_attempt j) (format now)) rows
                      (only_id j.id) (λ x. refl) q,
                  log_of-snoc_other other vs v q,
                )
                t)
      ]

-- What the read of the expired leases gives.
scanned_all : (rows : List Row) → All IsReadable rows → List Job
scanned_all [] h = []
scanned_all (r ∷ rs) h = scanned r h.0 ∷ scanned_all rs h.1

scan_all_lem : (rows : List Row) (h : All IsReadable rows) → scan_all rows ≡ ok (scanned_all rows h)
unfolding scan_all scanned_all
scan_all_lem [] h = refl
scan_all_lem (r ∷ rs) h = ground (arith, scan_job-IsReadable r h.0, scan_all_lem rs h.1)

scanned-differs :
    (id : Text) (rows : List Row) (h : All IsReadable rows)
    → IsNew id (column id_column rows)
    → All (λ (k : Job). eq_text id k.id ≡ false) (scanned_all rows h)
unfolding scanned_all scanned
scanned-differs id [] h n = tt
scanned-differs id (r ∷ rs) h n = (eq_text-sym_false r.id id n.0, scanned-differs id rs h.1 n.1)

scanned-Differ :
    (rows : List Row) (h : All IsReadable rows)
    → Distinct (column id_column rows)
    → Differ (scanned_all rows h)
unfolding scanned_all scanned
scanned-Differ [] h d = tt
scanned-Differ (r ∷ rs) h d = (scanned-differs r.id rs h.1 d.0, scanned-Differ rs h.1 d.1)

scanned-IsRead :
    (now : Stamp) (all rows : List Row) (h : All IsReadable rows)
    → All (λ r. find_id r.id all ≡ some r) rows
    → All (λ r. is_orphan now r ≡ true) rows
    → All (IsRead all) (scanned_all rows h)
unfolding scanned_all scanned
scanned-IsRead now all [] h f t = tt
scanned-IsRead now all (r ∷ rs) h f t = (
  record {
    row = r;
    found = f.0;
    is_lease = ground (arith, t.0);
    max_attempts = refl;
    retry_count = refl;
  },
  scanned-IsRead now all rs h.1 f.1 t.1,
)

pub recover-Journal :
    (e : Env) (regular : IsRegular e) (w : World) (kept : IsKept e w) → IsJournal e (recover e w).1
unfolding recover recover_orphaned_leases select_orphans ◌>>=◌ time_now statement lift pure
recover-Journal e regular w kept =
    let now = e.now w.ticks in
    let orphans = keep (is_orphan (format now)) w.db.jobs in
    let readable = All-keep IsReadable (is_orphan (format now)) w.db.jobs kept.reads.jobs in
    let js = scanned_all orphans readable in
    let read : All (IsRead w.db.jobs) js =
      scanned-IsRead (format now) w.db.jobs orphans readable
        (All-keep _ (is_orphan (format now)) w.db.jobs (find_id-each w.db.jobs kept.well.ids))
        (keep-test (is_orphan (format now)) w.db.jobs) in
    let differ : Differ js =
      scanned-Differ orphans readable
        (Distinct-keep id_column (is_orphan (format now)) w.db.jobs kept.well.ids) in
    let v : World = record w { ticks = suc (suc w.ticks) } in
    let u : World = record {
      db = set_jobs w.db (recovered_rows (format now) js w.db.jobs);
      ticks = length js + suc (suc w.ticks);
    } in
    rw
      (
        regular.quiet (suc w.ticks),
        scan_all_lem orphans readable,
        recover_each_runs e regular.quiet (format now) js v read differ,
        record_recoveries_runs e regular.quiet (e.now u.ticks) js
            (record u { ticks = suc u.ticks }),
      )
      (λ other.
        recovered-Tells now now (e.now u.ticks) _ (omega arith) (regular.forward _ _ (omega arith))
          (regular.forward _ _ (omega arith)) (regular.forward _ _ (omega arith))
          (regular.running _) w.db.next_event js w.db.jobs w.db.events read differ other
          (kept.journal other))
