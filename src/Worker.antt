-- ===== src/Worker.antt =====
-- internal/worker/worker.go: what a worker does to the queue for one job.
--
-- Other processes run their statements between the worker's own: they are lists of `Statement`, one
-- before each renewal that falls due while the handler runs, and one before the job is finished.
-- How the handler ends is a parameter, and so is the text of its error.
pub mod Fencing
pub mod Refine
pub mod Progress
pub mod Pool
use local_first_job_queue.Prelude.{
  ℕ, zero, suc, ◌/◌, ◌&&◌, not, Bool, true, false, Option, none, some, List, [], ◌∷◌, Text,
  if◌then◌else◌, ℤ, pos, negsuc, ltb_ℤ, leb_ℤ,
}
use local_first_job_queue.Clock.{Duration}
use local_first_job_queue.Models.{Job, PrunePolicy}
use local_first_job_queue.Store.{World, Env, Exec, Error, Result, ok, err, pure, ◌>>=◌, ◌>>◌}
use local_first_job_queue.Queue.{lease, acknowledge, fail, renew, recover, prune_auto}
use local_first_job_queue.Statements.{Statement, run_all}
use local_first_job_queue.Fault.{
  Failure, handler_panic, Outcome, returns_nil, returns_error, panics,
}

-- The fields of a `Worker` that one job's processing reads.
pub record Settings : Type 0 where
  pub kind : Text
  pub lease_duration : Duration
  pub lease_renewal_interval : Duration

negated : ℕ → ℤ
negated zero = pos 0
negated (suc n) = negsuc n

-- `d / 3`, which drops the rest.
unfoldable pub third : Duration → Duration
unfolding negated
third (pos n) = pos (n / 3)
third (negsuc n) = negated (suc n / 3)

-- The interval of `startLeaseRenewal`
unfoldable pub renewal_interval : Settings → Duration
unfolding third
renewal_interval s =
    if leb_ℤ s.lease_renewal_interval (pos 0)
    then third s.lease_duration
    else s.lease_renewal_interval

abbrev pub has_token : Text → Bool
has_token [] = false
has_token (c ∷ cs) = true

-- Whether `startLeaseRenewal` starts a heartbeat.
unfoldable pub renews_lease : Settings → Job → Bool
unfolding renewal_interval
renews_lease s j = ltb_ℤ (pos 0) (renewal_interval s) && has_token j.lease_token

-- The statements of other processes.
unfoldable pub others : List Statement → Exec (Unit {0})
unfolding run_all
others ss w = (ok tt, record w { db = run_all ss w.db })

-- The heartbeat, which ends at the first renewal that fails.
unfoldable pub heartbeat : Env → Job → Duration → List (List Statement) → Exec (Unit {0})
unfolding others renew
heartbeat e j t [] = pure tt
heartbeat e j t (ss ∷ beats) = do others ss; _ ← renew e j.id j.lease_token t; heartbeat e j t beats

-- `runHandler`: the error, where a panic becomes one.
abbrev pub run_handler : Outcome → Option Failure
run_handler returns_nil = none
run_handler (returns_error x) = some x
run_handler (panics x) = some (handler_panic x)

unfoldable pub finish : Env → (Failure → Text) → Job → Option Failure → Exec (Unit {0})
unfolding acknowledge fail
finish e text j none = acknowledge e j.id j.lease_token
finish e text j (some x) = fail e j.id j.lease_token (text x)

-- What the worker logs of a job, or that there was none.
pub data Processed : Type 0 where
  idle : Processed
  lease_error renewal_stopped : Error → Processed
  finished : Result (Unit {0}) → Processed

-- The part of `processOne` behind the heartbeat's end.
unfoldable pub after_heartbeat :
    Env
    → (Failure → Text)
    → Job
    → Outcome
    → List Statement
    → Result (Unit {0})
    → World
    → Processed × World
unfolding others finish
after_heartbeat e text j o last (err x) w = (renewal_stopped x, w)
after_heartbeat e text j o last (ok u) w =
    let (r, v) = (others last >> finish e text j (run_handler o)) w in (finished r, v)

unfoldable pub work_on :
    Env
    → Settings
    → (Job → Outcome)
    → (Failure → Text)
    → List (List Statement)
    → List Statement
    → Job
    → World
    → Processed × World
unfolding renews_lease heartbeat after_heartbeat
work_on e s handler text beats last j w =
    let (r, v) = (if renews_lease s j then heartbeat e j s.lease_duration beats else pure tt) w in
    after_heartbeat e text j (handler j) last r v

unfoldable pub after_lease :
    Env
    → Settings
    → (Job → Outcome)
    → (Failure → Text)
    → List (List Statement)
    → List Statement
    → Result (Option Job)
    → World
    → Processed × World
unfolding work_on
after_lease e s handler text beats last (err x) w = (lease_error x, w)
after_lease e s handler text beats last (ok none) w = (idle, w)
after_lease e s handler text beats last (ok (some j)) w = work_on e s handler text beats last j w

-- `processOne`, behind its wait for the poll interval.
unfoldable pub process_one :
    Env
    → Settings
    → (Job → Outcome)
    → (Failure → Text)
    → List (List Statement)
    → List Statement
    → World
    → Processed × World
unfolding lease after_lease
process_one e s handler text beats last w =
    let (r, v) = lease e s.kind s.lease_duration w in after_lease e s handler text beats last r v

-- `runRetention`, which only logs an error.
unfoldable pub run_retention : Env → PrunePolicy → World → World
unfolding prune_auto
run_retention e p w = (prune_auto e p w).1

-- The passes when the interval is over, with the statements of other processes before each.
unfoldable pub retention_passes : Env → PrunePolicy → List (List Statement) → World → World
unfolding run_retention others
retention_passes e p [] w = w
retention_passes e p (ss ∷ later) w = retention_passes e p later (run_retention e p (others ss w).1)

-- `retentionLoop`, until the context ends: an interval that is not positive gives one pass.
unfoldable pub retention_loop : Env → PrunePolicy → Duration → List (List Statement) → World → World
unfolding retention_passes
retention_loop e p interval later w =
    let v = run_retention e p w in
    let more = retention_passes e p later v in if leb_ℤ interval (pos 0) then v else more

-- What `Run` does before its loop: an error of the recovery is only logged.
unfoldable pub start_up : Env → World → World
unfolding recover
start_up e w = (recover e w).1
