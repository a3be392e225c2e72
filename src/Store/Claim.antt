-- ===== src/Store/Claim.antt =====
-- `LeaseJob` and `LeaseJobByID` of internal/queue/sqlite.go: which ready job comes first, and the
-- one statement that claims it.
use local_first_job_queue.Prelude.{
  Ordering, Bool, true, false, ◌&&◌, Option, none, some, List, [], ◌∷◌, Text, eq_text, compare_text,
  keep, if◌then◌else◌, ℤ, pos, ◌+ℤ◌, compare_ℤ, leb_ℤ,
}
use local_first_job_queue.Prelude.Order.{◌then_by◌}
use local_first_job_queue.Clock.{Duration, Stamp, add, format, compare_stamp, stamp_le, is_gt}
use local_first_job_queue.Models.{Job, leased, is_pending}
use local_first_job_queue.Store.{
  Row, Db, Env, Exec, Result, ok, err, no_rows, not_found, not_pending, statement, time_now,
  new_text, lift, ◌>>=◌,
}
use local_first_job_queue.Store.Rows.{update_returning, has_id, scan_optional, scan_row, get_job}

abbrev pub coalesce : Option Stamp → Stamp → Stamp
coalesce none s = s
coalesce (some t) s = t

-- `COALESCE(run_at, created_at)`
abbrev pub ready_at : Row → Stamp
ready_at r = coalesce r.run_at r.created_at

abbrev pub is_due : Option Stamp → Stamp → Bool
is_due none now = true
is_due (some t) now = stamp_le t now

-- `kind = ? AND state = 'pending' AND (run_at IS NULL OR run_at <= ?)`
unfoldable pub is_ready : Text → Stamp → Row → Bool
is_ready kind now r = eq_text r.kind kind && is_pending r.state && is_due r.run_at now

-- `priority DESC, COALESCE(run_at, created_at) ASC, created_at ASC, id ASC`
unfoldable pub plain_order : Row → Row → Ordering
plain_order a b =
    compare_ℤ b.priority a.priority
    then_by compare_stamp (ready_at a) (ready_at b)
    then_by compare_stamp a.created_at b.created_at
    then_by compare_text a.id b.id

-- The stored priority and one point for each aging interval waited.
unfoldable pub aged_priority : Env → Stamp → Row → ℤ
aged_priority e now r = r.priority +ℤ e.age_points now (ready_at r) e.aging_interval

-- `pendingOrderBy`
unfoldable pub pending_order : Env → Stamp → Row → Row → Ordering
unfolding plain_order aged_priority
pending_order e now a b =
    if leb_ℤ e.aging_interval (pos 0)
    then plain_order a b
    else compare_ℤ (aged_priority e now b) (aged_priority e now a) then_by plain_order a b

unfoldable pub better : (Row → Row → Ordering) → Row → Option Row → Option Row
better cmp r none = some r
better cmp r (some s) = if is_gt (cmp r s) then some s else some r

-- `ORDER BY .. LIMIT 1`
unfoldable pub best : (Row → Row → Ordering) → List Row → Option Row
unfolding better
best cmp [] = none
best cmp (r ∷ rs) = better cmp r (best cmp rs)

-- `SET state = 'leased', leased_until = ?, updated_at = ?, lease_token = ?`
abbrev pub lease_row : Stamp → Stamp → Text → Row → Row
lease_row now until token r = record r {
  state = leased;
  leased_until = some until;
  updated_at = now;
  lease_token = some token;
}

-- `id = (SELECT id ..)`, which no row satisfies where the inner query has none.
abbrev pub is_chosen : Option Row → Row → Bool
is_chosen none r = false
is_chosen (some s) r = has_id s.id r

unfoldable pub claim : Env → Text → Stamp → Stamp → Text → Db → Result (Option Row) × Db
unfolding update_returning best is_ready pending_order
claim e kind now until token d =
    let chosen = best (pending_order e now) (keep (is_ready kind now) d.jobs) in
    update_returning (is_chosen chosen) (lease_row now until token) d

-- `LeaseJob`
unfoldable pub lease_job : Env → Text → Duration → Exec (Option Job)
unfolding claim
lease_job e kind duration = do
  now ← time_now e
  token ← new_text e
  row ← statement e (claim e kind (format now) (format (add now duration)) token)
  lift (scan_optional row)

-- `id = ? AND state = 'pending'`
abbrev pub is_pending_id : Text → Row → Bool
is_pending_id id r = has_id id r && is_pending r.state

-- What `LeaseJobByID` reports where the update matched no row.
explain_refusal : Result Job → Result Job
explain_refusal (ok j) = err not_pending
explain_refusal (err no_rows) = err not_found
explain_refusal (err x) = err x

unfoldable pub refuse_lease : Env → Text → Exec Job
unfolding explain_refusal
refuse_lease e id w = let (r, v) = get_job e id w in (explain_refusal r, v)

unfoldable pub returned_or : Option Row → Exec Job → Exec Job
returned_or none m = m
returned_or (some r) m = lift (scan_row (some r))

-- `LeaseJobByID`
unfoldable pub lease_job_by_id : Env → Text → Duration → Exec Job
unfolding refuse_lease returned_or
lease_job_by_id e id duration = do
  now ← time_now e
  token ← new_text e
  row ← statement e (
      update_returning (is_pending_id id)
        (lease_row (format now) (format (add now duration)) token))
  returned_or row (refuse_lease e id)
