-- ===== src/Worker/Fencing.antt =====
-- A worker whose lease is lost while its handler runs leaves the queue alone.
use local_first_job_queue.Prelude.{
  ℕ, ◌≡◌, refl, ap, Bool, true, false, Option, none, some, List, [], ◌∷◌, Text, if◌then◌else◌, pos,
}
use local_first_job_queue.Clock.{Duration}
use local_first_job_queue.Models.{Job}
use local_first_job_queue.Store.{World, Db, Env, Exec, Error, ok, err, pure, ◌>>=◌, ◌>>◌}
use local_first_job_queue.Queue.{acknowledge, fail, renew}
use local_first_job_queue.Queue.Failures.{IsRefused, stale_worker}
use local_first_job_queue.Statements.{Statement, run_all}
use local_first_job_queue.Statements.Shape.{WellFormed, run_all-WellFormed}
use local_first_job_queue.Statements.Exclusive.{IsHeld}
use local_first_job_queue.Fault.{Failure, Outcome}
use local_first_job_queue.Worker.{
  Settings, renews_lease, others, heartbeat, finish, run_handler, renewal_stopped, finished,
  after_heartbeat, work_on,
}

no_beats :
    (e : Env) (j : Job) (t : Duration) (b : Bool) (w : World)
    → (if b then heartbeat e j t [] else pure tt) w ≡ (ok tt, w)
unfolding heartbeat pure
no_beats e j t true w = refl
no_beats e j t false w = refl

IsRefused-bind :
    {A B : Type 0} (m : Exec A) (f : A → Exec B) (w : World) (d : Db)
    → IsRefused (m w) d
    → IsRefused ((m >>= f) w) d
unfolding ◌>>=◌
IsRefused-bind m f w d h = rw h.0.1 ((h.0.0, refl), h.1)

module _ (e : Env) (text : Failure → Text) (j : Job) (w : World) (next : List Statement)
    (ok_db : WellFormed w.db) (c : ℕ) (cs : Text) (shown : j.lease_token ≡ c ∷ cs)
    (lost : ¬ IsHeld j.id (c ∷ cs) (run_all next w.db)) where
  after_next : World
  after_next = record w { db = run_all next w.db }

  stale :
      (message : Text) (t : Duration)
      → IsRefused (acknowledge e j.id (c ∷ cs) after_next) (run_all next w.db)
        × IsRefused (fail e j.id (c ∷ cs) message after_next) (run_all next w.db)
        × IsRefused (renew e j.id (c ∷ cs) t after_next) (run_all next w.db)
  unfolding after_next
  stale = stale_worker e after_next c cs j.id (run_all-WellFormed next w.db ok_db) lost

  heartbeat_lost :
      (t : Duration) (beats : List (List Statement))
      → IsRefused (heartbeat e j t (next ∷ beats) w) (run_all next w.db)
  unfolding heartbeat others ◌>>=◌ after_next
  heartbeat_lost t beats =
      rw shown (IsRefused-bind (renew e j.id (c ∷ cs) t) _ after_next _ (stale [] t).2)

  finish_lost :
      (o : Option Failure) → IsRefused ((others next >> finish e text j o) w) (run_all next w.db)
  unfolding finish others ◌>>=◌ after_next
  finish_lost none = rw shown (stale [] (pos 0)).0
  finish_lost (some x) = rw shown (stale (text x) (pos 0)).1

  -- On well-formed tables, a worker that holds a token that is not empty, and whose lease other
  -- processes end before a renewal falls due, changes nothing from then on: the renewal's error
  -- ends the work, and the tables stay as the others left them, whatever the handler returns.
  pub heartbeat_stops :
      (s : Settings) (handler : Job → Outcome) (beats : List (List Statement))
      (last : List Statement)
      → renews_lease s j ≡ true
      → ((x : Error) × ((work_on e s handler text (next ∷ beats) last j w).0 ≡ renewal_stopped x))
        × ((work_on e s handler text (next ∷ beats) last j w).1.db ≡ run_all next w.db)
  unfolding work_on after_heartbeat
  heartbeat_stops s handler beats last on =
      let h = heartbeat_lost s.lease_duration beats in rw (on, h.0.1) ((h.0.0, refl), h.1)

  -- On well-formed tables, a worker that holds a token that is not empty, and whose lease other
  -- processes end while the handler runs and no renewal falls due, changes nothing when the handler
  -- returns, whatever it returns: the acknowledgement or the failure report is refused.
  pub finish_stops :
      (s : Settings) (handler : Job → Outcome)
      → ((x : Error) × ((work_on e s handler text [] next j w).0 ≡ finished (err x)))
        × ((work_on e s handler text [] next j w).1.db ≡ run_all next w.db)
  unfolding work_on after_heartbeat
  finish_stops s handler =
      let f = finish_lost (run_handler (handler j)) in
      rw (no_beats e j s.lease_duration (renews_lease s j) w) ((f.0.0, ap finished f.0.1), f.1)
