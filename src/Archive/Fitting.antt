-- ===== src/Archive/Fitting.antt =====
-- Which records the verifier of internal/archive/archive.go accepts: a description of them that
-- does not mention it.
use local_first_job_queue.Prelude.{
  ◌≡◌, ◌≢◌, refl, subst, ◌≤◌, ◌↔◌, ◌⊎◌, inl, inr, Bool, true, false, List, [], ◌∷◌, Text, eq_text,
  eq_text_iff, ℤ, pos, ltb, ◌<ℤ◌, arith, if◌then◌else◌, ◌&&◌, ltb_ℤ, leb_ℤ, Bool-cases,
}
use local_first_job_queue.Prelude.Predicates.{All}
use local_first_job_queue.Clock.{Time}
use local_first_job_queue.Models.{Event}
use local_first_job_queue.Archive.Transition.{ReplayState, transition}
use local_first_job_queue.Archive.{
  Record, Code, duplicate_event, invalid_event_id, invalid_event_time, invalid_event_order, Loop,
  when, seen_id, seen_text, eq_ℤ, event_codes, after_event, transition_codes, state_after,
  later_events, is_zero,
}
use local_first_job_queue.Archive.Soundness.{
  append-eq_nil, when-eq_nil, event_sound, state_after_lem, Continues, IsConsistent,
}

-- The times of the events are set, and none is before the one in front of it.
abbrev pub Timed : Time → List Event → Type 0
Timed t [] = Unit
Timed t (v ∷ vs) = (v.timestamp ≢ 0) × (t ≤ v.timestamp) × Timed v.timestamp vs

-- No entry is `n`.
abbrev pub Lacks {ℓ} : {A : Type ℓ} → A → List A → Type ℓ
Lacks n = All (λ m. m ≢ n)

-- Each entry is neither in `old` nor among those in front of it.
abbrev pub AllNew {ℓ} : {A : Type ℓ} → List A → List A → Type ℓ
AllNew old [] = Unit
AllNew old (n ∷ ns) = Lacks n old × AllNew (n ∷ old) ns

-- The entries, put in front of `old` one by one.
abbrev pub onto {ℓ} : {A : Type ℓ} → List A → List A → List A
onto [] old = old
onto (n ∷ ns) old = onto ns (n ∷ old)

abbrev pub ids_of : List Event → List ℤ
ids_of [] = []
ids_of (v ∷ vs) = v.id ∷ ids_of vs

-- A record that is consistent by itself, its times too.
pub record IsAccepted (r : Record) : Type 0 where
  pub consistent : IsConsistent r
  pub ordered :
      (r.job.created_at ≡ 0) ⊎ (r.job.updated_at ≡ 0) ⊎ (r.job.created_at ≤ r.job.updated_at)
  pub timed : Timed 0 r.events

seen_id_iff : (n : ℤ) (ms : List ℤ) → (seen_id n ms ≡ false) ↔ Lacks n ms
unfolding seen_id
seen_id_iff n [] = (λ _. tt, λ _. refl)
seen_id_iff n (m ∷ ms) = elim (Bool-cases (eq_ℤ m n)) [
  | inl e ↦ (λ h. absurd (ground arith), λ h. absurd (h.0 (ground arith)))
  | inr e ↦ (
    λ h. (λ q. ground arith, (seen_id_iff n ms).0 (ground arith)),
    λ h. ground (arith, (seen_id_iff n ms).1 h.1),
  )
]

pub seen_text_iff : (t : Text) (us : List Text) → (seen_text t us ≡ false) ↔ Lacks t us
unfolding seen_text
seen_text_iff t [] = (λ _. tt, λ _. refl)
seen_text_iff t (u ∷ us) = elim (Bool-cases (eq_text u t)) [
  | inl e ↦ (λ h. absurd (ground arith), λ h. absurd (h.0 ((eq_text_iff u t).0 e)))
  | inr e ↦ (
    λ h. (λ q. ground (arith, eq_text_iff u t), (seen_text_iff t us).0 (ground arith)),
    λ h. ground (arith, (seen_text_iff t us).1 h.1),
  )
]

-- What a loop has seen so far when an event has no codes.
abbrev pub Fits : Text → Loop → Event → Type 0
Fits job_id l v =
    (v.job_id ≡ job_id)
    × (pos 0 <ℤ v.id)
    × Lacks v.id l.seen_events
    × (v.timestamp ≢ 0)
    × (pos 0 <ℤ l.previous_id → l.previous_id <ℤ v.id)
    × (l.previous_timestamp ≤ v.timestamp)

when_off : (b : Bool) (c : Code) → b ≡ false → when b c ≡ []
when_off b c e = rw e

id_codes_iff :
    (n : ℤ) (seen : List ℤ) (cs : List Code)
    → ((if leb_ℤ n (pos 0) then invalid_event_id ∷ [] else when (seen_id n seen) duplicate_event)
        ≡ [])
      ↔ ((pos 0 <ℤ n) × Lacks n seen)
id_codes_iff n seen cs = elim (Bool-cases (leb_ℤ n (pos 0))) [
  | inl e ↦ (λ h. absurd (ground arith), λ h. absurd (ground arith))
  | inr e ↦ (
    λ h. (ground arith, (seen_id_iff n seen).0 (ground arith)),
    λ h. ground (arith, (seen_id_iff n seen).1 h.1),
  )
]

pub event-Fits :
    (job_id : Text) (l : Loop) (v : Event) → event_codes job_id l v ≡ [] → Fits job_id l v
unfolding event_codes
event-Fits job_id l v h =
    let (mine, positive, larger) = event_sound job_id l v h in
    let (abcd, e) = append-eq_nil _ _ h in
    let (abc, d) = append-eq_nil _ _ abcd in
    let (ab, c) = append-eq_nil _ _ abc in
    let (a, b) = append-eq_nil _ _ ab in
    let timed = when-eq_nil _ invalid_event_time c in
    let later = when-eq_nil _ invalid_event_order e in
    (
      mine,
      positive,
      ((id_codes_iff v.id l.seen_events []).0 a).1,
      (λ q. ground arith),
      larger,
      ground arith,
    )

pub Fits-event :
    (job_id : Text) (l : Loop) (v : Event) → Fits job_id l v → event_codes job_id l v ≡ []
unfolding event_codes
Fits-event job_id l v (mine, positive, new, timed, larger, later) =
    let a = (id_codes_iff v.id l.seen_events []).1 (positive, new) in
    let same : eq_text v.job_id job_id ≡ true = (eq_text_iff v.job_id job_id).1 mine in
    let nonzero : is_zero v.timestamp ≡ false = elim (Bool-cases (is_zero v.timestamp)) [
      | inl e ↦ absurd (timed (ground arith))
      | inr e ↦ e
    ] in
    let order : (ltb_ℤ (pos 0) l.previous_id && leb_ℤ v.id l.previous_id) ≡ false =
      elim (Bool-cases (ltb_ℤ (pos 0) l.previous_id)) [
        | inl e ↦ ground (arith, larger (ground arith))
        | inr e ↦ ground arith
      ] in
    let later' : ltb v.timestamp l.previous_timestamp ≡ false = ground arith in
    rw (a, same, nonzero, order, later') (ground arith)

-- The loop after an event that fits.
abbrev pub fitted : Loop → ReplayState → Event → Loop
fitted l s v = record {
  state = s;
  previous_id = v.id;
  previous_timestamp = v.timestamp;
  seen_events = v.id ∷ l.seen_events;
}

pub after_event-fitted :
    (job_id : Text) (l : Loop) (s : ReplayState) (v : Event)
    → Fits job_id l v
    → after_event l s v ≡ fitted l s v
after_event-fitted job_id l s v (mine, positive, new, timed, larger, later) =
    let fresh = (seen_id_iff v.id l.seen_events).1 new in
    let nonzero : is_zero v.timestamp ≡ false = elim (Bool-cases (is_zero v.timestamp)) [
      | inl e ↦ absurd (timed (ground arith))
      | inr e ↦ e
    ] in
    let above : leb_ℤ v.id (pos 0) ≡ false = ground arith in rw (fresh, nonzero, above) refl

-- What the loop over the later events says of them, and what it leaves behind.
pub record Passed (l : Loop) (job_id : Text) (vs : List Event) : Type 0 where
  pub timed : Timed l.previous_timestamp vs
  pub new : AllNew l.seen_events (ids_of vs)
  pub left : (later_events job_id l vs).1.seen_events ≡ onto (ids_of vs) l.seen_events

pub later-Passed :
    (job_id : Text) (l : Loop) (vs : List Event)
    → (later_events job_id l vs).0 ≡ []
    → Passed l job_id vs
unfolding later_events
later-Passed job_id l [] h = record { timed = tt; new = tt; left = refl }
later-Passed job_id l (v ∷ vs) h =
    let (ab, c) = append-eq_nil _ _ h in
    let (a, b) = append-eq_nil _ _ ab in
    let fits = event-Fits job_id l v a in
    let s = state_after l.state (transition l.state v.event_type) in
    let e = after_event-fitted job_id l s v fits in
    let rest = later-Passed job_id (after_event l s v) vs c in
    let timed : Timed v.timestamp vs = subst (λ k. Timed k.previous_timestamp vs) e rest.timed in
    let new : AllNew (v.id ∷ l.seen_events) (ids_of vs) =
      subst (λ k. AllNew k.seen_events (ids_of vs)) e rest.new in
    record {
      timed = (fits.3, fits.5, timed);
      new = (fits.2, new);
      left =
          subst
            (λ (k : Loop).
              (later_events job_id (after_event l s v) vs).1.seen_events
              ≡ onto (ids_of vs) k.seen_events)
            e rest.left;
    }

pub later_complete :
    (job_id : Text) (l : Loop) (final : ReplayState) (vs : List Event)
    → pos 0 <ℤ l.previous_id
    → Continues job_id l.previous_id l.state final vs
    → Timed l.previous_timestamp vs
    → AllNew l.seen_events (ids_of vs)
    → ((later_events job_id l vs).0 ≡ []) × ((later_events job_id l vs).1.state ≡ final)
unfolding later_events
later_complete job_id l final [] p c t n = (refl, c)
later_complete job_id l final (v ∷ vs) p (mine, larger, accepted, c) (nonzero, later, t)
      (lacks, n) =
    let positive : pos 0 <ℤ v.id = ground arith in
    let fits : Fits job_id l v = (mine, positive, lacks, nonzero, (λ _. larger), later) in
    let x = transition l.state v.event_type in
    let e = after_event-fitted job_id l (state_after l.state x) v fits in
    let s : state_after l.state x ≡ x.0 = state_after_lem l.state x accepted in
    let rest = later_complete job_id (fitted l x.0 v) final vs positive c t n in
    let next : after_event l (state_after l.state x) v ≡ fitted l x.0 v =
      subst (λ y. after_event l (state_after l.state x) v ≡ fitted l y v) s e in
    let codes : transition_codes x ≡ [] = ground arith in
    rw (next, Fits-event job_id l v fits, codes) rest
