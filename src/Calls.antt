-- ===== src/Calls.antt =====
-- The queue's operations as one type, so that a history is a list of calls.
--
-- A call's answer goes to its caller; what it did to the tables stays, an error included. The
-- steps are those of internal/queue/queue.go and internal/queue/prune.go.
pub mod Inspection
pub mod Snapshot
pub mod Replay
use local_first_job_queue.Prelude.{subst, List, [], ◌∷◌, Text}
use local_first_job_queue.Clock.{Duration}
use local_first_job_queue.Models.{PrunePolicy, RetentionSource}
use local_first_job_queue.Store.{World, Env}
use local_first_job_queue.Store.Claim.{lease_job_by_id}
use local_first_job_queue.Store.Prune.{prune_with_source}
use local_first_job_queue.Queue.{
  EnqueueConfig, RequeueConfig, enqueue, lease, acknowledge, fail, renew, recover, requeue,
}
use local_first_job_queue.Statements.{Follows}
use local_first_job_queue.Statements.Shape.{WellFormed, run_all-WellFormed}
use local_first_job_queue.Statements.Refine.{
  Follows-refl, enqueue_op-Follows, lease-Follows, lease_job_by_id-Follows, acknowledge-Follows,
  fail_op-Follows, renew_op-Follows, recover_op-Follows, requeue_op-Follows,
  prune_with_source-Follows,
}

pub data Call : Type 0 where
  enqueues : Text → Text → EnqueueConfig → Call
  leases leases_by_id : Text → Duration → Call
  acknowledges : Text → Text → Call
  fails : Text → Text → Text → Call
  renews : Text → Text → Duration → Call
  recovers : Call
  requeues : Text → RequeueConfig → Call
  prunes : PrunePolicy → RetentionSource → Call

unfoldable pub perform : Env → Call → World → World
unfolding enqueue lease lease_job_by_id acknowledge fail renew recover requeue prune_with_source
perform e (enqueues kind payload cfg) w = (enqueue e kind payload cfg w).1
perform e (leases kind t) w = (lease e kind t w).1
perform e (leases_by_id id t) w = (lease_job_by_id e id t w).1
perform e (acknowledges id token) w = (acknowledge e id token w).1
perform e (fails id token message) w = (fail e id token message w).1
perform e (renews id token t) w = (renew e id token t w).1
perform e recovers w = (recover e w).1
perform e (requeues id cfg) w = (requeue e id cfg w).1
perform e (prunes p source) w = (prune_with_source e p source w).1

unfoldable pub perform_all : Env → List Call → World → World
unfolding perform
perform_all e [] w = w
perform_all e (c ∷ cs) w = perform_all e cs (perform e c w)

-- Each call, whatever fails in it and at whatever point, changes the tables as some list of the
-- statements of `Statement` does.
pub perform-Follows : (e : Env) (c : Call) (w : World) → Follows w.db (perform e c w).db
unfolding perform
perform-Follows e (enqueues kind payload cfg) w =
    (enqueue_op-Follows w.db e kind payload cfg).at w (Follows-refl w.db)
perform-Follows e (leases kind t) w = (lease-Follows w.db e kind t).at w (Follows-refl w.db)
perform-Follows e (leases_by_id id t) w =
    (lease_job_by_id-Follows w.db e id t).at w (Follows-refl w.db)
perform-Follows e (acknowledges id token) w =
    (acknowledge-Follows w.db e id token).at w (Follows-refl w.db)
perform-Follows e (fails id token message) w =
    (fail_op-Follows w.db e id token message).at w (Follows-refl w.db)
perform-Follows e (renews id token t) w =
    (renew_op-Follows w.db e id token t).at w (Follows-refl w.db)
perform-Follows e recovers w = (recover_op-Follows w.db e).at w (Follows-refl w.db)
perform-Follows e (requeues id cfg) w = (requeue_op-Follows w.db e id cfg).at w (Follows-refl w.db)
perform-Follows e (prunes p source) w =
    (prune_with_source-Follows w.db e p source).at w (Follows-refl w.db)

perform-WellFormed :
    (e : Env) (c : Call) (w : World) → WellFormed w.db → WellFormed (perform e c w).db
perform-WellFormed e c w h =
    let f = perform-Follows e c w in
    subst WellFormed f.result (run_all-WellFormed f.statements w.db h)

-- After any calls, from well-formed tables, the tables are well formed.
pub perform_all-WellFormed :
    (e : Env) (cs : List Call) (w : World) → WellFormed w.db → WellFormed (perform_all e cs w).db
unfolding perform_all
perform_all-WellFormed e [] w h = h
perform_all-WellFormed e (c ∷ cs) w h =
    perform_all-WellFormed e cs (perform e c w) (perform-WellFormed e c w h)
