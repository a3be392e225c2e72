-- ===== src/Journal/Broken.antt =====
-- `Fail` without a token, of internal/queue/queue.go, on a job that is not leased: what it logs is
-- no history for the verifier.
use local_first_job_queue.Prelude.{
  suc, ◌≡◌, ◌≢◌, refl, subst, Bool, true, false, some, List, [], ◌∷◌, ◌++◌, Text, ℤ, arith, map,
}
use local_first_job_queue.Prelude.Predicates.{All-find?}
use local_first_job_queue.Clock.{format}
use local_first_job_queue.Models.{JobState, is_leased}
use local_first_job_queue.Archive.Transition.{ReplayState, transition}
use local_first_job_queue.Archive.{Seen, same_state, validate_record}
use local_first_job_queue.Archive.Soundness.{Continues, IsHistory, validate_record_sound}
use local_first_job_queue.Store.{EventRow, Row, World, Env}
use local_first_job_queue.Store.Rows.{has_id}
use local_first_job_queue.Store.Insert.{insert_event, event_row}
use local_first_job_queue.Store.Lookup.{find_id}
use local_first_job_queue.Store.Readable.{IsReadable, scanned, scan_job-IsReadable}
use local_first_job_queue.Queue.{fail, failure_event, failure_metadata, should_retry}
use local_first_job_queue.Queue.Failures.{fail_unleased}
use local_first_job_queue.Journal.{Steps, Replays, Tells, Told, log_of}
use local_first_job_queue.Journal.Change.{log_of-snoc}
use local_first_job_queue.Journal.Outcomes.{IsKept}
use local_first_job_queue.Queue.Idempotency.{IsQuiet}
use local_first_job_queue.Journal.Records.{read_event, record_of}

-- The last event of a history is a transition from the state that the others reach.
Steps-last :
    (id : Text) (low : ℤ) (s f final : ReplayState) (vs : List EventRow) (v : EventRow)
    → Steps s f vs
    → Continues id low s final (map read_event (vs ++ v ∷ []))
    → (transition f v.event_type).1 ≡ true
Steps-last id low s f final [] v h c = subst (λ x. (transition x v.event_type).1 ≡ true) h c.2
Steps-last id low s f final (u ∷ us) v h c =
    Steps-last id _ (transition s u.event_type).0 f final us v h.1 c.3

Replays-last :
    (id : Text) (old state : JobState) (vs : List EventRow) (v : EventRow)
    → Replays old vs
    → IsHistory id state (map read_event (vs ++ v ∷ []))
    → (f : ReplayState) × (same_state f old ≡ true) × ((transition f v.event_type).1 ≡ true)
Replays-last id old state [] v h c = absurd h
Replays-last id old state (u ∷ us) v (first, (f, same, steps)) (mine, above, ok, (final, end, c)) =
    (f, same, Steps-last id _ _ f final us v steps c)

only_leased :
    (f : ReplayState) (old : JobState) (b : Bool)
    → same_state f old ≡ true
    → (transition f (failure_event b)).1 ≡ true
    → is_leased old ≡ true
unfolding transition
only_leased f old true h q = ground arith
only_leased f old false h q = ground arith

-- Where no statement fails, on well-formed tables whose timestamps parse and in which the log of
-- each job replays to its state, `Fail` without a token on a job that is not leased leaves the job
-- as it was, with a log that the verifier reports an error of, whatever lines stand above it in the
-- archive.
pub fail_unleased-unverified :
    (e : Env) (quiet : IsQuiet e) (w : World) (kept : IsKept e w) (id message : Text) (r : Row)
    (seen : Seen)
    → find_id id w.db.jobs ≡ some r
    → is_leased r.state ≡ false
    → let v = (fail e id [] message w).1 in
      (find_id id v.db.jobs ≡ some r)
      × ((validate_record (record_of r (log_of id v.db.events)) seen).errors ≢ [])
unfolding insert_event
fail_unleased-unverified e quiet w kept id message r seen found idle =
    let readable = All-find? IsReadable (has_id id) w.db.jobs r kept.reads.jobs found in
    let told : Told (e.now w.ticks) r (log_of id w.db.events) =
      subst (λ o. Tells (e.now w.ticks) o (log_of id w.db.events)) found (kept.journal id) in
    let j = scanned r readable in
    let v =
      event_row w.db.next_event id (failure_event (should_retry j))
        (some (failure_metadata (should_retry j) j message))
        (format (e.now (suc (suc (suc w.ticks))))) in
    rw
      (fail_unleased e w id message r j quiet kept.well found (scan_job-IsReadable r readable) idle)
      (rw (log_of-snoc id w.db.events v refl) (
        found,
        λ q.
            let (f, same, ok) =
              Replays-last r.id r.state r.state (log_of id w.db.events) v told.replays
                (validate_record_sound (record_of r (log_of id w.db.events ++ v ∷ [])) seen
                  q).history in
            absurd (ground (arith, only_leased f r.state (should_retry j) same ok, idle)),
      ))
