-- ===== src/Archive/Soundness.antt =====
-- What a record without issues is: the verifier of internal/archive/archive.go against a
-- description of a consistent history that does not mention it.
use local_first_job_queue.Prelude.{
  ◌≡◌, ◌≢◌, refl, subst, Bool, true, false, not, List, [], ◌∷◌, ◌++◌, Text, eq_text_iff, ℤ, pos,
  ◌≤ℤ◌, ◌<ℤ◌, arith, if◌then◌else◌, ◌&&◌, ◌||◌, ltb_ℤ, leb_ℤ,
}
use local_first_job_queue.Models.{JobState, Event, EventType}
use local_first_job_queue.Archive.Transition.{ReplayState, first_event_state, transition}
use local_first_job_queue.Archive.{
  Record, Code, unsupported_schema, invalid_attempt_budget, invalid_retry_count, invalid_job_state,
  missing_job_id, broken_reference, invalid_event_order, invalid_event_id, duplicate_event,
  state_mismatch, Seen, Loop, when, seen_id, eq_ℤ, job_codes, event_codes, after_event,
  transition_codes, state_after, later_events, start_loop, same_state, is_unknown, events_findings,
  validate_record, schema_version_1, valid_job_state, is_empty,
}

pub append-eq_nil : (xs ys : List Code) → xs ++ ys ≡ [] → (xs ≡ []) × (ys ≡ [])
append-eq_nil [] ys h = (refl, h)
append-eq_nil (x ∷ xs) ys h = cc

pub when-eq_nil : (b : Bool) (c : Code) → when b c ≡ [] → b ≡ false
when-eq_nil true c h = cc
when-eq_nil false c h = refl

-- The events from the second on: each belongs to the job, has a larger id than the one before,
-- and has a transition from the state that was reached; the last leaves `final`.
abbrev pub Continues : Text → ℤ → ReplayState → ReplayState → List Event → Type 0
Continues job_id previous s final [] = s ≡ final
Continues job_id previous s final (v ∷ vs) =
    (v.job_id ≡ job_id)
    × (previous <ℤ v.id)
    × ((transition s v.event_type).1 ≡ true)
    × Continues job_id v.id (transition s v.event_type).0 final vs

-- The whole list: a first event that may start a history, and its continuation to the state of
-- the job.
abbrev pub IsHistory : Text → JobState → List Event → Type 0
IsHistory job_id state [] = ⊥
IsHistory job_id state (v ∷ vs) =
    (v.job_id ≡ job_id)
    × (pos 0 <ℤ v.id)
    × ((first_event_state v.event_type).1 ≡ true)
    × ((final : ReplayState) × (same_state final state ≡ true)
        × Continues job_id v.id (first_event_state v.event_type).0 final vs)

pub event_sound :
    (job_id : Text) (l : Loop) (v : Event)
    → event_codes job_id l v ≡ []
    → (v.job_id ≡ job_id) × (pos 0 <ℤ v.id) × (pos 0 <ℤ l.previous_id → l.previous_id <ℤ v.id)
unfolding event_codes
event_sound job_id l v h =
    let (abcd, e) = append-eq_nil _ _ h in
    let (abc, d) = append-eq_nil _ _ abcd in
    let (ab, c) = append-eq_nil _ _ abc in
    let (a, b) = append-eq_nil _ _ ab in
    (
      (eq_text_iff v.job_id job_id).0 (ground (arith, when-eq_nil _ broken_reference b)),
      positive a,
      λ p. ground (arith, when-eq_nil _ invalid_event_order d),
    )
  where
    positive :
        (if leb_ℤ v.id (pos 0)
            then invalid_event_id ∷ []
            else when (seen_id v.id l.seen_events) duplicate_event)
          ≡ []
        → pos 0 <ℤ v.id
    positive a = ground arith

pub accepted_lem : (t : ReplayState × Bool) → transition_codes t ≡ [] → t.1 ≡ true
accepted_lem t h = ground arith

pub state_after_lem :
    (s : ReplayState) (t : ReplayState × Bool) → t.1 ≡ true → state_after s t ≡ t.0
state_after_lem s t h = ground arith

later_sound :
    (job_id : Text) (l : Loop) (vs : List Event)
    → pos 0 <ℤ l.previous_id
    → (later_events job_id l vs).0 ≡ []
    → Continues job_id l.previous_id l.state (later_events job_id l vs).1.state vs
unfolding later_events
later_sound job_id l [] p h = refl
later_sound job_id l (v ∷ vs) p h =
    let (ab, c) = append-eq_nil _ _ h in
    let (a, b) = append-eq_nil _ _ ab in
    let (mine, positive, larger) = event_sound job_id l v a in
    let accepted : (transition l.state v.event_type).1 ≡ true =
      accepted_lem (transition l.state v.event_type) b in
    (
      mine,
      larger p,
      accepted,
      subst
          (λ s.
            Continues job_id v.id s
              (later_events job_id
                (after_event l (state_after l.state (transition l.state v.event_type)) v)
                vs).1.state
              vs)
          (state_after_lem l.state (transition l.state v.event_type) accepted)
          (later_sound job_id
            (after_event l (state_after l.state (transition l.state v.event_type)) v) vs positive
            c),
    )

pub known_first :
    (t : EventType) → (first_event_state t).1 ≡ true → is_unknown (first_event_state t).0 ≡ false
unfolding first_event_state
known_first t h = ground arith

known_next :
    (s : ReplayState) (t : EventType)
    → (transition s t).1 ≡ true
    → is_unknown (transition s t).0 ≡ false
unfolding transition
known_next s t h = ground arith

pub known_final :
    (job_id : Text) (previous : ℤ) (s final : ReplayState) (vs : List Event)
    → is_unknown s ≡ false
    → Continues job_id previous s final vs
    → is_unknown final ≡ false
known_final job_id previous s final [] k c = subst (λ x. is_unknown x ≡ false) c k
known_final job_id previous s final (v ∷ vs) k c =
    known_final job_id v.id (transition s v.event_type).0 final vs (known_next s v.event_type c.2)
      c.3

ends :
    (s : ReplayState) (t : JobState)
    → is_unknown s ≡ false
    → (not (is_unknown s) && not (same_state s t)) ≡ false
    → same_state s t ≡ true
ends s t k m = ground arith

-- The loop and the comparison behind it: a record without issues there has a consistent history.
events_sound :
    (vs : List Event) (r : Record) (seen : Seen)
    → (events_findings vs r seen).errors ≡ []
    → IsHistory r.job.id r.job.state vs
unfolding events_findings
events_sound [] r seen h = cc
events_sound (v ∷ vs) r seen h =
    let first = after_event (start_loop seen.events) (first_event_state v.event_type).0 v in
    let (abc, d) = append-eq_nil _ _ h in
    let (ab, c) = append-eq_nil _ _ abc in
    let (a, b) = append-eq_nil _ _ ab in
    let (mine, positive, larger) = event_sound r.job.id (start_loop seen.events) v a in
    let starts : (first_event_state v.event_type).1 ≡ true =
      accepted_lem (first_event_state v.event_type) b in
    let rest = later_sound r.job.id first vs positive c in
    let known = known_final r.job.id v.id _ _ vs (known_first v.event_type starts) rest in
    (
      mine,
      positive,
      starts,
      (
        (later_events r.job.id first vs).1.state,
        ends _ _ known (when-eq_nil _ state_mismatch d),
        rest,
      ),
    )

-- What the fields of a record without issues are.
pub record IsConsistent (r : Record) : Type 0 where
  pub version : r.schema_version ≡ schema_version_1
  pub has_id : r.job.id ≢ []
  pub budget : pos 1 ≤ℤ r.job.max_attempts
  pub retries : (pos 0 ≤ℤ r.job.retry_count) × (r.job.retry_count ≤ℤ r.job.max_attempts)
  pub known_state : valid_job_state r.job.state ≡ true
  pub history : IsHistory r.job.id r.job.state r.events

of_version : (n : ℤ) → not (eq_ℤ n schema_version_1) ≡ false → n ≡ schema_version_1
of_version n h = ground arith

of_id :
    (id : Text) (cs : List Code) → (if is_empty id then missing_job_id ∷ [] else cs) ≡ [] → id ≢ []
of_id [] cs h = cc
of_id (c ∷ id) cs h = λ q. cc

of_budget : (n : ℤ) → ltb_ℤ n (pos 1) ≡ false → pos 1 ≤ℤ n
of_budget n h = ground arith

of_retries : (n m : ℤ) → (ltb_ℤ n (pos 0) || ltb_ℤ m n) ≡ false → (pos 0 ≤ℤ n) × (n ≤ℤ m)
of_retries n m h = ground arith

of_state : (s : JobState) → not (valid_job_state s) ≡ false → valid_job_state s ≡ true
of_state s h = ground arith

-- A record that the verifier reports no issue of is consistent: the schema version, the job's id,
-- budget, count and state are valid, and its events belong to the job, have growing ids, and lead
-- by valid transitions to the state of the job.
pub validate_record_sound :
    (r : Record) (seen : Seen) → (validate_record r seen).errors ≡ [] → IsConsistent r
unfolding validate_record job_codes
validate_record_sound r seen h =
    let (codes, events) = append-eq_nil _ _ h in
    let (abcde, f) = append-eq_nil _ _ codes in
    let (abcd, e) = append-eq_nil _ _ abcde in
    let (abc, d) = append-eq_nil _ _ abcd in
    let (ab, c) = append-eq_nil _ _ abc in
    let (a, b) = append-eq_nil _ _ ab in
    record {
      version = of_version r.schema_version (when-eq_nil _ unsupported_schema a);
      has_id = of_id r.job.id _ b;
      budget = of_budget r.job.max_attempts (when-eq_nil _ invalid_attempt_budget c);
      retries =
          of_retries r.job.retry_count r.job.max_attempts (when-eq_nil _ invalid_retry_count d);
      known_state = of_state r.job.state (when-eq_nil _ invalid_job_state e);
      history = events_sound r.events r _ events;
    }
