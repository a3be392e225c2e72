-- ===== src/Journal/Suffix.antt =====
-- The cap of internal/queue/prune.go keeps the end of a job's log, and the end replays to the same
-- state.
use local_first_job_queue.Prelude.{
  ◌≡◌, refl, ap, ◌∙◌, ℕ, ◌≤◌, ◌<◌, inl, inr, Bool, true, false, not, ◌&&◌, List, [], ◌∷◌, Text,
  eq_text, eq_text_iff, keep, count, arith, Bool-cases, ℤ, pos, leb, leb_ℤ, ltb_ℤ,
}
use local_first_job_queue.Prelude.Predicates.{All}
use local_first_job_queue.Clock.{Time}
use local_first_job_queue.Models.{JobState, EventType}
use local_first_job_queue.Archive.Transition.{ReplayState, first_event_state, transition}
use local_first_job_queue.Store.{EventRow}
use local_first_job_queue.Store.Lookup.{keep-test}
use local_first_job_queue.Store.Prune.{row_number, is_beyond}
use local_first_job_queue.Statements.Shape.{Ascends, Ascends-keep, Ascends-lower}
use local_first_job_queue.Journal.{Replays, Dated, log_of}

-- What a log says of a job in `state` at the time `high`.
abbrev pub IsLog : JobState → Time → List EventRow → Type 0
IsLog state high vs = Replays state vs × Dated 0 high vs

-- A transition that is accepted does not depend on where it comes from.
first_event_state-transition :
    (s : ReplayState) (t : EventType)
    → (transition s t).1 ≡ true
    → first_event_state t ≡ transition s t
unfolding transition first_event_state
first_event_state-transition s t h = ground arith

Dated-lower :
    (low lower high : Time) (vs : List EventRow)
    → lower ≤ low
    → Dated low high vs
    → Dated lower high vs
Dated-lower low lower high [] h d = omega arith
Dated-lower low lower high (v ∷ vs) h (t, e, p, l, d) = (t, e, p, omega arith, d)

IsLog-rest :
    (state : JobState) (high : Time) (u v : EventRow) (vs : List EventRow)
    → IsLog state high (u ∷ v ∷ vs)
    → IsLog state high (v ∷ vs)
IsLog-rest state high u v vs ((first, (final, same, (ok, steps))), (t, e, p, l, d)) =
    let q = first_event_state-transition (first_event_state u.event_type).0 v.event_type ok in
    ((rw q ok, (final, same, rw q steps)), Dated-lower t 0 high (v ∷ vs) (omega arith) d)

-- The test holds of the last event, if there is one.
abbrev Last : (EventRow → Bool) → List EventRow → Type 0
Last k [] = Unit
Last k (v ∷ []) = k v ≡ true
Last k (u ∷ v ∷ vs) = Last k (v ∷ vs)

keep-all :
    (k : EventRow → Bool) (low next : ℕ) (vs : List EventRow)
    → ((v : EventRow) → low < v.id → k v ≡ true)
    → Ascends low next vs
    → keep k vs ≡ vs
unfolding keep
keep-all k low next [] h a = refl
keep-all k low next (v ∷ vs) h a =
    rw (h v a.0) (ap (λ xs. v ∷ xs) (keep-all k v.id next vs (λ x q. h x (omega (arith, a.0))) a.1))

-- Where a kept event is followed by kept ones only, and the last is kept, the rest is the end.
IsLog-end :
    (state : JobState) (high : Time) (k : EventRow → Bool) (low next : ℕ) (vs : List EventRow)
    → ((u v : EventRow) → u.id < v.id → k u ≡ true → k v ≡ true)
    → Ascends low next vs
    → Last k vs
    → IsLog state high vs
    → IsLog state high (keep k vs)
unfolding keep
IsLog-end state high k low next [] mono a l h = h
IsLog-end state high k low next (v ∷ []) mono a l h = rw l h
IsLog-end state high k low next (u ∷ v ∷ vs) mono a l h = elim (Bool-cases (k u)) [
  | inl q ↦ rw (q, keep-all k u.id next (v ∷ vs) (λ x b. mono u x b q) a.1) h
  | inr q ↦
      rw q (IsLog-end state high k u.id next (v ∷ vs) mono a.1 l (IsLog-rest state high u v vs h))
]

-- The number of events of a log from an id on.
abbrev rank : List EventRow → ℕ → ℕ
rank vs n = count (λ (u : EventRow). leb n u.id) vs

rank-le : (vs : List EventRow) (m n : ℕ) → m ≤ n → rank vs n ≤ rank vs m
unfolding count
rank-le [] m n h = omega arith
rank-le (v ∷ vs) m n h = ground (arith, rank-le vs m n)

above :
    (low next : ℕ) (vs : List EventRow)
    → Ascends low next vs
    → All (λ (v : EventRow). low < v.id) vs
above low next [] a = tt
above low next (v ∷ vs) a = (a.0, above low next vs (Ascends-lower v.id low next vs a.0 a.1))

Last-map :
    (k l : EventRow → Bool) (vs : List EventRow)
    → All (λ v. k v ≡ true → l v ≡ true) vs
    → Last k vs
    → Last l vs
Last-map k l [] f h = tt
Last-map k l (v ∷ []) f h = f.0 h
Last-map k l (u ∷ v ∷ vs) f h = Last-map k l (v ∷ vs) f.1 h

abbrev is_top : List EventRow → EventRow → Bool
is_top vs v = leb (rank vs v.id) 1

is_top-cons :
    (u : EventRow) (vs us : List EventRow)
    → All (λ (v : EventRow). u.id < v.id) us
    → All (λ v. is_top vs v ≡ true → is_top (u ∷ vs) v ≡ true) us
unfolding count
is_top-cons u vs [] h = tt
is_top-cons u vs (x ∷ xs) h = ((λ q. ground (arith, h.0)), is_top-cons u vs xs h.1)

Last-is_top : (low next : ℕ) (vs : List EventRow) → Ascends low next vs → Last (is_top vs) vs
unfolding count
Last-is_top low next [] a = tt
Last-is_top low next (v ∷ []) a = ground arith
Last-is_top low next (u ∷ v ∷ vs) a =
    Last-map (is_top (v ∷ vs)) (is_top (u ∷ v ∷ vs)) (v ∷ vs)
      (is_top-cons u (v ∷ vs) (v ∷ vs) (above u.id next (v ∷ vs) a.1))
      (Last-is_top u.id next (v ∷ vs) a.1)

abbrev is_kept : ℤ → List EventRow → EventRow → Bool
is_kept limit vs v = not (ltb_ℤ limit (pos (rank vs v.id)))

is_kept_mono :
    (limit : ℤ) (vs : List EventRow) (u v : EventRow)
    → u.id < v.id
    → is_kept limit vs u ≡ true
    → is_kept limit vs v ≡ true
is_kept_mono limit vs u v h q = ground (arith, rank-le vs u.id v.id)

top-is_kept :
    (limit : ℤ) (vs us : List EventRow)
    → leb_ℤ limit (pos 0) ≡ false
    → All (λ v. is_top vs v ≡ true → is_kept limit vs v ≡ true) us
top-is_kept limit vs [] h = tt
top-is_kept limit vs (x ∷ xs) h = ((λ q. ground arith), top-is_kept limit vs xs h)

-- The newest events of a job, as many as the limit says, replay to its state too.
newest-IsLog :
    (state : JobState) (high : Time) (limit : ℤ) (next : ℕ) (vs : List EventRow)
    → leb_ℤ limit (pos 0) ≡ false
    → Ascends 0 next vs
    → IsLog state high vs
    → IsLog state high (keep (is_kept limit vs) vs)
newest-IsLog state high limit next vs h a l =
    IsLog-end state high (is_kept limit vs) 0 next vs (is_kept_mono limit vs) a
      (Last-map (is_top vs) (is_kept limit vs) vs (top-is_kept limit vs vs h)
        (Last-is_top 0 next vs a))
      l

-- The rank among one job's events is the row number.
row_number-rank :
    (id : Text) (n : ℕ) (events : List EventRow)
    → count (λ (u : EventRow). eq_text u.job_id id && leb n u.id) events ≡ rank (log_of id events) n
unfolding count keep
row_number-rank id n [] = refl
row_number-rank id n (v ∷ vs) = elim (Bool-cases (eq_text v.job_id id)) [
  | inl q ↦ rw (q, row_number-rank id n vs) refl
  | inr q ↦ rw (q, row_number-rank id n vs) (omega arith)
]

same_tests :
    (id : Text) (limit : ℤ) (events us : List EventRow)
    → All (λ (v : EventRow). eq_text v.job_id id ≡ true) us
    → keep (λ v. not (is_beyond limit events v)) us ≡ keep (is_kept limit (log_of id events)) us
unfolding keep row_number
same_tests id limit events [] h = refl
same_tests id limit events (v ∷ vs) h =
    let q : v.job_id ≡ id = (eq_text_iff v.job_id id).0 h.0 in
    rw (q, row_number-rank id v.id events, same_tests id limit events vs h.1) refl

keep_swap : (p q : EventRow → Bool) (vs : List EventRow) → keep p (keep q vs) ≡ keep q (keep p vs)
unfolding keep
keep_swap p q [] = refl
keep_swap p q (v ∷ vs) = elim (Bool-cases (p v)) [
  | inl a ↦ elim (Bool-cases (q v)) [
    | inl b ↦ rw (a, b, a, keep_swap p q vs) refl
    | inr b ↦ rw (a, b, keep_swap p q vs) refl
  ]
  | inr a ↦ elim (Bool-cases (q v)) [
    | inl b ↦ rw (a, b, a, keep_swap p q vs) refl
    | inr b ↦ rw (a, b, keep_swap p q vs) refl
  ]
]

-- The log of a job after the cap.
trimmed_log :
    (id : Text) (limit : ℤ) (events : List EventRow)
    → log_of id (keep (λ v. not (is_beyond limit events v)) events)
      ≡ keep (is_kept limit (log_of id events)) (log_of id events)
trimmed_log id limit events =
    keep_swap _ (λ v. not (is_beyond limit events v)) events
    ∙ same_tests id limit events (log_of id events) (keep-test _ events)

pub trimmed-IsLog :
    (id : Text) (state : JobState) (high : Time) (limit : ℤ) (next : ℕ) (events : List EventRow)
    → leb_ℤ limit (pos 0) ≡ false
    → Ascends 0 next events
    → IsLog state high (log_of id events)
    → IsLog state high (log_of id (keep (λ v. not (is_beyond limit events v)) events))
trimmed-IsLog id state high limit next events h a l =
    rw (trimmed_log id limit events)
      (newest-IsLog state high limit next (log_of id events) h (Ascends-keep _ 0 next events a) l)

pub trimmed_none :
    (id : Text) (limit : ℤ) (events : List EventRow)
    → log_of id events ≡ []
    → log_of id (keep (λ v. not (is_beyond limit events v)) events) ≡ []
unfolding keep
trimmed_none id limit events h = trimmed_log id limit events ∙ rw h refl
