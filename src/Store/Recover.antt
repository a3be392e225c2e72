-- ===== src/Store/Recover.antt =====
-- `RecoverOrphanedLeases` of internal/queue/sqlite.go: a read of the expired leases, then one
-- guarded update for each.
use local_first_job_queue.Prelude.{
  ℕ, zero, suc, Bool, false, ◌&&◌, Option, none, some, List, [], ◌∷◌, Text, keep, if◌then◌else◌, ℤ,
  pos, ◌+ℤ◌, leb_ℤ,
}
use local_first_job_queue.Clock.{Stamp, format, stamp_lt}
use local_first_job_queue.Models.{Job, JobState, pending, dead_letter, is_leased}
use local_first_job_queue.Store.{
  Row, Db, Env, Exec, Result, ok, statement, time_now, lift, pure, ◌>>=◌,
}
use local_first_job_queue.Store.Rows.{update, has_id, scan_all}
use local_first_job_queue.Store.Changes.{release_row}

abbrev pub expired_by : Option Stamp → Stamp → Bool
expired_by none now = false
expired_by (some until) now = stamp_lt until now

-- `state = 'leased' AND leased_until < ?`
abbrev pub is_orphan : Stamp → Row → Bool
is_orphan now r = is_leased r.state && expired_by r.leased_until now

unfoldable pub select_orphans : Stamp → Db → Result (List Row) × Db
select_orphans now d = (ok (keep (is_orphan now) d.jobs), d)

abbrev pub next_attempt : Job → ℤ
next_attempt j = j.retry_count +ℤ pos 1

abbrev pub recovered_state : Job → JobState
recovered_state j = if leb_ℤ j.max_attempts (next_attempt j) then dead_letter else pending

-- `id = ? AND state = 'leased'`
abbrev pub is_leased_id : Text → Row → Bool
is_leased_id id r = has_id id r && is_leased r.state

-- The update of one orphan, in the state and with the count that the read job gives.
unfoldable pub recover_row : Stamp → Job → Db → Result ℕ × Db
unfolding update
recover_row now j =
    update (is_leased_id j.id) (release_row (recovered_state j) (next_attempt j) now)

abbrev pub recovered_job : Job → Job
recovered_job j = record j { state = recovered_state j; retry_count = next_attempt j }

-- A job whose row was no longer leased is left out of the answer.
abbrev pub report : ℕ → Job → List Job → List Job
report zero j js = js
report (suc n) j js = recovered_job j ∷ js

unfoldable pub recover_each : Env → Stamp → List Job → Exec (List Job)
unfolding recover_row
recover_each e now [] = pure []
recover_each e now (j ∷ js) = do
  n ← statement e (recover_row now j)
  rest ← recover_each e now js
  pure (report n j rest)

-- `RecoverOrphanedLeases`
unfoldable pub recover_orphaned_leases : Env → Exec (List Job)
unfolding select_orphans
recover_orphaned_leases e = do
  now ← time_now e
  rows ← statement e (select_orphans (format now))
  orphans ← lift (scan_all rows)
  recover_each e (format now) orphans
