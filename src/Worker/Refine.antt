-- ===== src/Worker/Refine.antt =====
-- What a worker and the processes beside it do to the tables is a schedule of statements.
use local_first_job_queue.Prelude.{
  Bool-cases, inl, inr, leb_ℤ, pos, ap, ◌∙◌, subst, Option, none, some, List, [], ◌∷◌, ◌++◌, Text,
}
use local_first_job_queue.Clock.{Duration}
use local_first_job_queue.Models.{Job, PrunePolicy, auto}
use local_first_job_queue.Store.{World, Db, Env, Result, ok, err}
use local_first_job_queue.Store.Keeps.{Keeps, Keeps-bind, Keeps-if, Keeps-pure}
use local_first_job_queue.Statements.{Statement, Follows, run_all, run_all-append}
use local_first_job_queue.Statements.Shape.{WellFormed, run_all-WellFormed}
use local_first_job_queue.Statements.Refine.{
  Follows-refl, lease-Follows, acknowledge-Follows, fail_op-Follows, renew_op-Follows,
  prune_with_source-Follows,
}
use local_first_job_queue.Fault.{Failure, Outcome}
use local_first_job_queue.Queue.{prune_auto}
use local_first_job_queue.Worker.{
  run_retention, retention_passes, retention_loop, Settings, renews_lease, others, heartbeat,
  finish, run_handler, after_heartbeat, work_on, after_lease, process_one,
}

module _ (d : Db) where
  others-Follows : (ss : List Statement) → Keeps (Follows d) (others ss)
  unfolding others
  others-Follows ss = record {
    at = λ w f. record {
      statements = f.statements ++ ss;
      result = run_all-append f.statements ss d ∙ ap (run_all ss) f.result;
    };
  }

  heartbeat-Follows :
      (e : Env) (j : Job) (t : Duration) (beats : List (List Statement))
      → Keeps (Follows d) (heartbeat e j t beats)
  unfolding heartbeat
  heartbeat-Follows e j t [] = Keeps-pure tt
  heartbeat-Follows e j t (ss ∷ beats) = Keeps-bind _ _ (others-Follows ss) λ _.
      Keeps-bind _ _ (renew_op-Follows d e j.id j.lease_token t) λ _. heartbeat-Follows e j t beats

  finish-Follows :
      (e : Env) (text : Failure → Text) (j : Job) (o : Option Failure)
      → Keeps (Follows d) (finish e text j o)
  unfolding finish
  finish-Follows e text j none = acknowledge-Follows d e j.id j.lease_token
  finish-Follows e text j (some x) = fail_op-Follows d e j.id j.lease_token (text x)

  after_heartbeat-Follows :
      (e : Env) (text : Failure → Text) (j : Job) (o : Outcome) (last : List Statement)
      (r : Result (Unit {0})) (w : World)
      → Follows d w.db
      → Follows d (after_heartbeat e text j o last r w).1.db
  unfolding after_heartbeat
  after_heartbeat-Follows e text j o last (err x) w f = f
  after_heartbeat-Follows e text j o last (ok u) w f =
      (Keeps-bind _ _ (others-Follows last) λ _. finish-Follows e text j (run_handler o)).at w f

  work_on-Follows :
      (e : Env) (s : Settings) (handler : Job → Outcome) (text : Failure → Text)
      (beats : List (List Statement)) (last : List Statement) (j : Job) (w : World)
      → Follows d w.db
      → Follows d (work_on e s handler text beats last j w).1.db
  unfolding work_on
  work_on-Follows e s handler text beats last j w f =
      after_heartbeat-Follows e text j (handler j) last _ _ (
        (Keeps-if (renews_lease s j) _ _ (heartbeat-Follows e j s.lease_duration beats)
            (Keeps-pure tt)).at
          w f)

  pub after_lease-Follows :
      (e : Env) (s : Settings) (handler : Job → Outcome) (text : Failure → Text)
      (beats : List (List Statement)) (last : List Statement) (r : Result (Option Job)) (w : World)
      → Follows d w.db
      → Follows d (after_lease e s handler text beats last r w).1.db
  unfolding after_lease
  after_lease-Follows e s handler text beats last (err x) w f = f
  after_lease-Follows e s handler text beats last (ok none) w f = f
  after_lease-Follows e s handler text beats last (ok (some j)) w f =
      work_on-Follows e s handler text beats last j w f

-- A worker's processing of one job, with the statements of other processes before each renewal and
-- before the end, is a schedule of statements, so well-formed tables stay well formed.
pub process_one-WellFormed :
    (e : Env) (s : Settings) (handler : Job → Outcome) (text : Failure → Text)
    (beats : List (List Statement)) (last : List Statement) (w : World)
    → WellFormed w.db
    → WellFormed (process_one e s handler text beats last w).1.db
unfolding process_one
process_one-WellFormed e s handler text beats last w h =
    let f =
      after_lease-Follows w.db e s handler text beats last _ _
        ((lease-Follows w.db e s.kind s.lease_duration).at w (Follows-refl w.db)) in
    subst WellFormed f.result (run_all-WellFormed f.statements w.db h)

run_retention-WellFormed :
    (e : Env) (p : PrunePolicy) (w : World) → WellFormed w.db → WellFormed (run_retention e p w).db
unfolding run_retention prune_auto
run_retention-WellFormed e p w h =
    let f = (prune_with_source-Follows w.db e p auto).at w (Follows-refl w.db) in
    subst WellFormed f.result (run_all-WellFormed f.statements w.db h)

retention_passes-WellFormed :
    (e : Env) (p : PrunePolicy) (later : List (List Statement)) (w : World)
    → WellFormed w.db
    → WellFormed (retention_passes e p later w).db
unfolding retention_passes others
retention_passes-WellFormed e p [] w h = h
retention_passes-WellFormed e p (ss ∷ later) w h =
    let v : World = record w { db = run_all ss w.db } in
    retention_passes-WellFormed e p later (run_retention e p v)
      (run_retention-WellFormed e p v (run_all-WellFormed ss w.db h))

-- A worker's retention keeps well-formed tables well formed, whatever other processes do between
-- its passes.
pub retention_loop-WellFormed :
    (e : Env) (p : PrunePolicy) (interval : Duration) (later : List (List Statement)) (w : World)
    → WellFormed w.db
    → WellFormed (retention_loop e p interval later w).db
unfolding retention_loop
retention_loop-WellFormed e p interval later w h =
    let first = run_retention-WellFormed e p w h in
    elim (Bool-cases (leb_ℤ interval (pos 0))) [
      | inl q ↦ rw q first
      | inr q ↦ rw q (retention_passes-WellFormed e p later (run_retention e p w) first)
    ]
