-- ===== src/Calls/Replay.antt =====
-- The event log after a history of calls: internal/queue/queue.go writes what the replay of
-- internal/archive/archive.go reads.
use local_first_job_queue.Prelude.{refl, ℕ, find?, keep, List, [], ◌∷◌, subst}
use local_first_job_queue.Prelude.Predicates.{All}
use local_first_job_queue.Store.{World, Env, empty}
use local_first_job_queue.Statements.Shape.{WellFormed, run_all-WellFormed, empty-WellFormed}
use local_first_job_queue.Statements.Reading.{Reads, run_all-Reads, empty-Reads}
use local_first_job_queue.Journal.Outcomes.{
  IsRegular, IsKept, IsJournal, acknowledge-Journal, renew-Journal,
}
use local_first_job_queue.Journal.Failures.{fail-Journal}
use local_first_job_queue.Journal.Requeues.{requeue-Journal}
use local_first_job_queue.Journal.Leases.{lease-Journal}
use local_first_job_queue.Journal.Creation.{enqueue-Journal}
use local_first_job_queue.Journal.Recovery.{recover-Journal}
use local_first_job_queue.Journal.Pruning.{prune-Journal}
use local_first_job_queue.Calls.{
  Call, enqueues, leases, leases_by_id, acknowledges, fails, renews, recovers, requeues, prunes,
  perform, perform_all, perform-Follows,
}

-- The calls that log what they do. `LeaseJobByID` appends no event, and `Fail` without a token
-- appends one for a job that is not leased too.
abbrev pub IsLogged : Call → Type 0
IsLogged (leases_by_id id t) = ⊥
IsLogged (fails id [] message) = ⊥
IsLogged _ = Unit

perform-Journal :
    (e : Env) (regular : IsRegular e) (c : Call) (w : World)
    → IsLogged c
    → IsKept e w
    → IsJournal e (perform e c w)
unfolding perform
perform-Journal e regular (enqueues kind payload cfg) w l h =
    enqueue-Journal e regular w h kind payload cfg
perform-Journal e regular (leases kind t) w l h = lease-Journal e regular w h kind t
perform-Journal e regular (leases_by_id id t) w l h = absurd l
perform-Journal e regular (acknowledges id token) w l h = acknowledge-Journal e regular w h id token
perform-Journal e regular (fails id [] message) w l h = absurd l
perform-Journal e regular (fails id (c ∷ cs) message) w l h =
    fail-Journal e regular w h id c cs message
perform-Journal e regular (renews id token t) w l h = renew-Journal e regular w h id token t
perform-Journal e regular recovers w l h = recover-Journal e regular w h
perform-Journal e regular (requeues id cfg) w l h = requeue-Journal e regular w h id cfg
perform-Journal e regular (prunes p source) w l h = prune-Journal e regular w h p source

pub perform-IsKept :
    (e : Env) (regular : IsRegular e) (c : Call) (w : World)
    → IsLogged c
    → IsKept e w
    → IsKept e (perform e c w)
perform-IsKept e regular c w l h =
    let f = perform-Follows e c w in
    record {
      well = subst WellFormed f.result (run_all-WellFormed f.statements w.db h.well);
      reads = subst Reads f.result (run_all-Reads f.statements w.db h.reads);
      journal = perform-Journal e regular c w l h;
    }

pub perform_all-IsKept :
    (e : Env) (regular : IsRegular e) (cs : List Call) (w : World)
    → All IsLogged cs
    → IsKept e w
    → IsKept e (perform_all e cs w)
unfolding perform_all
perform_all-IsKept e regular [] w l h = h
perform_all-IsKept e regular (c ∷ cs) w l h =
    perform_all-IsKept e regular cs (perform e c w) l.1 (perform-IsKept e regular c w l.0 h)

abbrev pub new_world : ℕ → World
new_world n = record { db = empty; ticks = n }

pub new_world-IsKept : (e : Env) (n : ℕ) → IsKept e (new_world n)
unfolding find? keep
new_world-IsKept e n = record { well = empty-WellFormed; reads = empty-Reads; journal = λ id. refl }

-- From an empty database, after any calls but `LeaseJobByID` and `Fail` without a token, where no
-- statement fails, the clock has started and does not go back, and no random id is empty: for each
-- id there is a job and its log, or neither. The log of a job, whatever a retention cap left of it,
-- is not empty; it replays by valid transitions to the state of the job, at times that do not go
-- back; and the job has a budget, an attempt left while it is open, and was not updated before it
-- was created.
pub perform_all-Journal :
    (e : Env) (regular : IsRegular e) (cs : List Call) (n : ℕ)
    → All IsLogged cs
    → IsJournal e (perform_all e cs (new_world n))
perform_all-Journal e regular cs n l =
    (perform_all-IsKept e regular cs (new_world n) l (new_world-IsKept e n)).journal
