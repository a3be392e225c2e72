-- ===== src/Journal.antt =====
-- The event log of internal/queue/queue.go against the jobs: what the two tables together say of
-- each job, in the terms of the replay of internal/archive/archive.go.
pub mod Change
pub mod Outcomes
pub mod Failures
pub mod Requeues
pub mod Leases
pub mod Creation
pub mod Runs
pub mod Recovery
pub mod Suffix
pub mod Pruning
pub mod Records
pub mod Numbers
pub mod Broken
use local_first_job_queue.Prelude.{
  ◌≡◌, ◌≢◌, refl, sym, subst, ap, ℕ, ◌≤◌, ◌<◌, Bool, true, false, ◌||◌, Option, none, some, List,
  [], ◌∷◌, ◌++◌, Text, eq_text, keep, ℤ, pos, ◌≤ℤ◌, ◌<ℤ◌, arith,
}
use local_first_job_queue.Clock.{Time, format}
use local_first_job_queue.Models.{
  JobState, EventType, is_pending, is_leased, pending, leased, completed, dead_letter, leased_event,
  acknowledged, retried, recovered, dead_lettered, requeued, lease_renewed, enqueued, scheduled,
}
use local_first_job_queue.Archive.Transition.{ReplayState, first_event_state, transition}
use local_first_job_queue.Archive.{same_state}
use local_first_job_queue.Store.{Row, EventRow}
use local_first_job_queue.Store.Lookup.{find_id}

-- From the replay's state `s`, the events lead by valid transitions to `final`.
abbrev pub Steps : ReplayState → ReplayState → List EventRow → Type 0
Steps s final [] = s ≡ final
Steps s final (v ∷ vs) =
    ((transition s v.event_type).1 ≡ true) × Steps (transition s v.event_type).0 final vs

-- The events, of which there is one at least, replay to the state of a job.
abbrev pub Replays : JobState → List EventRow → Type 0
Replays state [] = ⊥
Replays state (v ∷ vs) =
    ((first_event_state v.event_type).1 ≡ true)
    × ((final : ReplayState) × (same_state final state ≡ true)
        × Steps (first_event_state v.event_type).0 final vs)

-- The times of the events are those of a clock that shows `low` before the first and `high` after
-- the last, and does not go back.
abbrev pub Dated : Time → Time → List EventRow → Type 0
Dated low high [] = low ≤ high
Dated low high (v ∷ vs) =
    (t : Time) × (v.timestamp ≡ format t) × (0 < t) × (low ≤ t) × Dated t high vs

abbrev pub is_open : JobState → Bool
is_open s = is_pending s || is_leased s

-- The counts of a row: an open job has an attempt left.
pub record HasBudget (r : Row) : Type 0 where
  pub budget : pos 1 ≤ℤ r.max_attempts
  pub retries : pos 0 ≤ℤ r.retry_count
  pub within : r.retry_count ≤ℤ r.max_attempts
  pub attempt_left : is_open r.state ≡ true → r.retry_count <ℤ r.max_attempts

-- The fields of a row at the time `high`.
pub record IsSound (high : Time) (r : Row) : Type 0 where
  pub named : r.id ≢ []
  pub counts : HasBudget r
  pub created : Time
  pub updated : Time
  pub created_ok : r.created_at ≡ format created
  pub updated_ok : r.updated_at ≡ format updated
  pub ordered : created ≤ updated
  pub past : updated ≤ high

-- A row and all the events of its job.
pub record Told (high : Time) (r : Row) (vs : List EventRow) : Type 0 where
  pub sound : IsSound high r
  pub replays : Replays r.state vs
  pub dated : Dated 0 high vs

abbrev pub Tells : Time → Option Row → List EventRow → Type 0
Tells high none vs = vs ≡ []
Tells high (some r) vs = Told high r vs

-- The events of one job.
abbrev pub log_of : Text → List EventRow → List EventRow
log_of id vs = keep (λ (v : EventRow). eq_text v.job_id id) vs

-- For each id: a job and its events, or neither.
abbrev pub Journal : Time → List Row → List EventRow → Type 0
Journal high rows events = (id : Text) → Tells high (find_id id rows) (log_of id events)

-- An event of a job in the state `old` that leaves it in the state `new`.
abbrev pub Allowed : JobState → EventType → JobState → Type 0
Allowed old t new =
    (s : ReplayState)
    → same_state s old ≡ true
    → ((transition s t).1 ≡ true) × (same_state (transition s t).0 new ≡ true)

Steps-snoc :
    (s final : ReplayState) (vs : List EventRow) (v : EventRow)
    → Steps s final vs
    → (transition final v.event_type).1 ≡ true
    → Steps s (transition final v.event_type).0 (vs ++ v ∷ [])
Steps-snoc s final [] v h q =
    subst
      (λ x.
        ((transition x v.event_type).1 ≡ true)
        × ((transition x v.event_type).0 ≡ (transition final v.event_type).0))
      (sym h) (q, refl)
Steps-snoc s final (u ∷ us) v h q = (h.0, Steps-snoc (transition s u.event_type).0 final us v h.1 q)

Replays-snoc :
    (old new : JobState) (vs : List EventRow) (v : EventRow)
    → Replays old vs
    → Allowed old v.event_type new
    → Replays new (vs ++ v ∷ [])
Replays-snoc old new [] v h a = absurd h
Replays-snoc old new (u ∷ us) v (first, (final, same, steps)) a =
    let (ok, next) = a final same in
    (first, ((transition final v.event_type).0, next, Steps-snoc _ final us v steps ok))

Dated-snoc :
    (low mid high t : Time) (vs : List EventRow) (v : EventRow)
    → Dated low mid vs
    → v.timestamp ≡ format t
    → 0 < t
    → mid ≤ t
    → t ≤ high
    → Dated low high (vs ++ v ∷ [])
Dated-snoc low mid high t [] v h e p a b = (t, e, p, omega arith, b)
Dated-snoc low mid high t (u ∷ us) v (s, q, z, l, h) e p a b =
    (s, q, z, l, Dated-snoc s mid high t us v h e p a b)

Dated-later :
    (low mid high : Time) (vs : List EventRow) → Dated low mid vs → mid ≤ high → Dated low high vs
Dated-later low mid high [] h a = omega arith
Dated-later low mid high (u ∷ us) (s, q, z, l, h) a = (s, q, z, l, Dated-later s mid high us h a)

IsSound-later : (mid high : Time) (r : Row) → IsSound mid r → mid ≤ high → IsSound high r
IsSound-later mid high r h a = record {
  named = h.named;
  counts = h.counts;
  created = h.created;
  updated = h.updated;
  created_ok = h.created_ok;
  updated_ok = h.updated_ok;
  ordered = h.ordered;
  past = omega (arith, h.past);
}

-- The invariant at a later time.
pub Tells-later :
    (mid high : Time) (o : Option Row) (vs : List EventRow)
    → Tells mid o vs
    → mid ≤ high
    → Tells high o vs
Tells-later mid high none vs h a = h
Tells-later mid high (some r) vs h a = record {
  sound = IsSound-later mid high r h.sound a;
  replays = h.replays;
  dated = Dated-later 0 mid high vs h.dated a;
}

-- One event more, and the row as it is then.
pub Told-snoc :
    (mid high t : Time) (r s : Row) (vs : List EventRow) (v : EventRow)
    → Told mid r vs
    → IsSound high s
    → Allowed r.state v.event_type s.state
    → v.timestamp ≡ format t
    → 0 < t
    → mid ≤ t
    → t ≤ high
    → Told high s (vs ++ v ∷ [])
Told-snoc mid high t r s vs v h sound a e p l u = record {
  sound = sound;
  replays = Replays-snoc r.state s.state vs v h.replays a;
  dated = Dated-snoc 0 mid high t vs v h.dated e p l u;
}

pub leased_event-Allowed : Allowed pending leased_event leased
unfolding transition
leased_event-Allowed s h = ground arith

pub lease_renewed-Allowed : Allowed leased lease_renewed leased
unfolding transition
lease_renewed-Allowed s h = ground arith

pub acknowledged-Allowed : Allowed leased acknowledged completed
unfolding transition
acknowledged-Allowed s h = ground arith

pub retried-Allowed : Allowed leased retried pending
unfolding transition
retried-Allowed s h = ground arith

pub recovered-Allowed : Allowed leased recovered pending
unfolding transition
recovered-Allowed s h = ground arith

pub dead_lettered-Allowed : Allowed leased dead_lettered dead_letter
unfolding transition
dead_lettered-Allowed s h = ground arith

pub requeued-Allowed : Allowed dead_letter requeued pending
unfolding transition
requeued-Allowed s h = ground arith
