-- ===== src/Store/Changes.antt =====
-- How internal/queue/sqlite.go ends, extends and restarts a lease: `completeJob`, `failJob`,
-- `RenewJob` and `RequeueJob`. An empty lease token asks for no fencing.
use local_first_job_queue.Prelude.{
  ℕ, zero, suc, Bool, true, false, ◌&&◌, Option, none, some, [], ◌∷◌, Text, eq_text, ℤ, pos, ◌+ℤ◌,
}
use local_first_job_queue.Clock.{Duration, Stamp, add, format}
use local_first_job_queue.Models.{
  Job, JobState, pending, completed, dead_letter, is_leased, is_dead_letter,
}
use local_first_job_queue.Store.{
  Row, Env, Exec, Result, ok, err, lease_lost, not_leased, not_dead_lettered, statement, time_now,
  lift, raise, ◌>>=◌,
}
use local_first_job_queue.Store.Rows.{update, update_returning, has_id, scan_row, get_job}

-- `lease_token = ?`, which NULL does not satisfy.
abbrev pub token_is : Text → Option Text → Bool
token_is t none = false
token_is t (some u) = eq_text u t

-- The clause ` AND lease_token = ?` is added for a token that is not empty.
abbrev pub fenced : Text → Row → Bool
fenced [] r = true
fenced (c ∷ cs) r = token_is (c ∷ cs) r.lease_token

-- `id = ? AND state = 'leased'`, and the token's clause
abbrev pub holds_lease : Text → Text → Row → Bool
holds_lease id token r = has_id id r && is_leased r.state && fenced token r

-- `leased_until = NULL, lease_token = NULL, updated_at = ?` and a new state and count
abbrev pub release_row : JobState → ℤ → Stamp → Row → Row
release_row state retries now r = record r {
  state = state;
  retry_count = retries;
  leased_until = none;
  lease_token = none;
  updated_at = now;
}

abbrev pub complete_row : Stamp → Row → Row
complete_row now r = release_row completed r.retry_count now r

abbrev pub retry_state : Bool → JobState
retry_state true = pending
retry_state false = dead_letter

abbrev pub fail_row : Bool → Stamp → Row → Row
fail_row retry now r = release_row (retry_state retry) (r.retry_count +ℤ pos 1) now r

completed_rows : Text → ℕ → Result (Unit {0})
completed_rows token (suc n) = ok tt
completed_rows [] zero = err not_leased
completed_rows (c ∷ cs) zero = err lease_lost

-- `completeJob`
unfoldable pub complete_job : Env → Text → Text → Exec (Unit {0})
unfolding update completed_rows
complete_job e id token = do
  now ← time_now e
  n ← statement e (update (holds_lease id token) (complete_row (format now)))
  lift (completed_rows token n)

-- Without a token a failure that changed no row is reported as done.
failed_rows : Text → ℕ → Result (Unit {0})
failed_rows token (suc n) = ok tt
failed_rows [] zero = ok tt
failed_rows (c ∷ cs) zero = err lease_lost

-- `failJob`
unfoldable pub fail_job : Env → Text → Text → Bool → Exec (Unit {0})
unfolding update failed_rows
fail_job e id token retry = do
  now ← time_now e
  n ← statement e (update (holds_lease id token) (fail_row retry (format now)))
  lift (failed_rows token n)

-- `id = ? AND state = 'leased' AND lease_token = ?`, whatever the token
abbrev pub holds_token : Text → Text → Row → Bool
holds_token id token r = has_id id r && is_leased r.state && token_is token r.lease_token

abbrev pub renew_row : Stamp → Stamp → Row → Row
renew_row now until r = record r { leased_until = some until; updated_at = now }

renewed : Option Row → Result Job
renewed none = err lease_lost
renewed (some r) = scan_row (some r)

-- `RenewJob`
unfoldable pub renew_job : Env → Text → Text → Duration → Exec Job
unfolding update_returning renewed
renew_job e id token duration = do
  now ← time_now e
  row ←
      statement e (
        update_returning (holds_token id token)
          (renew_row (format now) (format (add now duration))))
  lift (renewed row)

abbrev pub is_dead_lettered_id : Text → Row → Bool
is_dead_lettered_id id r = has_id id r && is_dead_letter r.state

abbrev pub payload_or : Option Text → Text → Text
payload_or none p = p
payload_or (some q) p = q

abbrev pub requeue_row : ℤ → Option Text → Stamp → Row → Row
requeue_row max_attempts payload now r = record r {
  state = pending;
  retry_count = pos 0;
  max_attempts = max_attempts;
  payload = payload_or payload r.payload;
  leased_until = none;
  lease_token = none;
  updated_at = now;
}

unfoldable pub requeued_rows : Env → Text → ℕ → Exec Job
requeued_rows e id zero = raise not_dead_lettered
requeued_rows e id (suc n) = get_job e id

-- `RequeueJob`
unfoldable pub requeue_job : Env → Text → ℤ → Option Text → Exec Job
unfolding update requeued_rows
requeue_job e id max_attempts payload = do
  now ← time_now e
  n ← statement e (update (is_dead_lettered_id id) (requeue_row max_attempts payload (format now)))
  requeued_rows e id n
