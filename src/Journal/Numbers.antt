-- ===== src/Journal/Numbers.antt =====
-- No job and no event stands in two records of an export.
use local_first_job_queue.Prelude.{
  ◌≡◌, ◌≢◌, refl, sym, ap, ◌∙◌, ℕ, ◌≤◌, true, Option, some, List, [], ◌∷◌, ◌++◌, Text, eq_text,
  eq_text_iff, find?, arith, ℤ, pos, ◌≤ℤ◌, map, ◌==◌, some-eq,
}
use local_first_job_queue.Prelude.Predicates.{All, All-keep}
use local_first_job_queue.Archive.{Record, Line, decoded}
use local_first_job_queue.Archive.Fitting.{Lacks, AllNew, onto, ids_of}
use local_first_job_queue.Archive.Exact.{AllNew-append, job_ids, event_ids}
use local_first_job_queue.Store.{Row, EventRow}
use local_first_job_queue.Store.Lookup.{keep-test}
use local_first_job_queue.Store.Queries.Separate.{Strange, Separate}
use local_first_job_queue.Statements.Shape.{Ascends, Ascends-keep}
use local_first_job_queue.Journal.{log_of}
use local_first_job_queue.Journal.Records.{record_of, read_event}

All-onto {ℓ κ} :
    {A : Type ℓ} (P : A → Type κ) (xs old : List A) → All P xs → All P old → All P (onto xs old)
All-onto P [] old h k = k
All-onto P (x ∷ xs) old h k = All-onto P xs (x ∷ old) h.1 (h.0, k)

All-map {ℓ κ μ} :
    {A : Type ℓ} {P : A → Type κ} {Q : A → Type μ} (f : (x : A) → P x → Q x) (xs : List A)
    → All P xs
    → All Q xs
All-map f [] h = tt
All-map f (x ∷ xs) h = (f x h.0, All-map f xs h.1)

AllNew-both {ℓ} :
    {A : Type ℓ} (a b xs : List A) → AllNew a xs → All (λ x. Lacks x b) xs → AllNew (a ++ b) xs
AllNew-both a b [] h k = tt
AllNew-both {A = A} a b (x ∷ xs) h k = (lacks a h.0, AllNew-both (x ∷ a) b xs h.1 k.1)
  where
    lacks : (c : List A) → Lacks x c → Lacks x (c ++ b)
    lacks [] n = k.0
    lacks (y ∷ c) n = (n.0, lacks c n.1)

-- Growing ids do not repeat.
Ascends-AllNew :
    (low next : ℕ) (vs : List EventRow) (a : List ℤ)
    → Ascends low next vs
    → All (λ m. m ≤ℤ pos low) a
    → AllNew a (ids_of (map read_event vs))
Ascends-AllNew low next [] a h k = tt
Ascends-AllNew low next (v ∷ vs) a h k = (
  All-map {Q = λ m. m ≢ pos v.id}
      (λ (m : ℤ) (q : m ≤ℤ pos low) (e : m ≡ pos v.id). ground (arith, h.0)) a k,
  Ascends-AllNew v.id next vs (pos v.id ∷ a) h.1
      (omega arith, All-map (λ (m : ℤ) (q : m ≤ℤ pos low). omega (arith, h.0)) a k),
)

-- The event with a number.
abbrev numbered : ℕ → List EventRow → Option EventRow
numbered n vs = find? (λ (x : EventRow). x.id == n) vs

later_numbered :
    (low next : ℕ) (u : EventRow) (all vs : List EventRow)
    → u.id ≤ low
    → Ascends low next vs
    → All (λ v. numbered v.id all ≡ some v) vs
    → All (λ v. numbered v.id (u ∷ all) ≡ some v) vs
unfolding find?
later_numbered low next u all [] l a h = tt
later_numbered low next u all (v ∷ vs) l a h =
    (ground (arith, h.0, a.0), later_numbered v.id next u all vs (omega (arith, a.0)) a.1 h.1)

each_numbered :
    (low next : ℕ) (vs : List EventRow)
    → Ascends low next vs
    → All (λ v. numbered v.id vs ≡ some v) vs
unfolding find?
each_numbered low next [] a = tt
each_numbered low next (v ∷ vs) a = (
  ground arith,
  later_numbered v.id next v vs vs (omega arith) a.1 (each_numbered v.id next vs a.1),
)

-- The job of the event with a number.
abbrev IsOwned : List EventRow → Text → ℤ → Type 0
IsOwned events id m =
    (v : EventRow) × (m ≡ pos v.id) × (numbered v.id events ≡ some v) × (eq_text v.job_id id ≡ true)

IsOwned-log :
    (id : Text) (events vs : List EventRow)
    → All (λ v. numbered v.id events ≡ some v) vs
    → All (λ (v : EventRow). eq_text v.job_id id ≡ true) vs
    → All (IsOwned events id) (ids_of (map read_event vs))
IsOwned-log id events [] h k = tt
IsOwned-log id events (v ∷ vs) h k = ((v, refl, h.0, k.0), IsOwned-log id events vs h.1 k.1)

one_owner :
    (events : List EventRow) (s t : Text) (m n : ℤ)
    → IsOwned events s m
    → IsOwned events t n
    → m ≡ n
    → s ≡ t
one_owner events s t m n (v, e, p, a) (u, f, q, b) same =
    let number : v.id ≡ u.id = ground (arith, e, f, same) in
    let event : v ≡ u = some-eq (sym p ∙ ap (λ x. numbered x events) number ∙ q) in
    sym ((eq_text_iff v.job_id s).0 a)
    ∙ ap (λ (x : EventRow). x.job_id) event
    ∙ (eq_text_iff u.job_id t).0 b

-- The records of the rows, and the lines that read as they were written.
abbrev pub records_of : List EventRow → List Row → List Record
records_of events rows = map (λ (r : Row). record_of r (log_of r.id events)) rows

abbrev pub lines_of : List EventRow → List Row → List Line
lines_of events rows = map decoded (records_of events rows)

pub jobs-AllNew :
    (events : List EventRow) (rows : List Row) (old : List Text)
    → Separate rows
    → All (λ u. Strange u rows) old
    → AllNew old (job_ids (lines_of events rows))
jobs-AllNew events [] old s h = tt
jobs-AllNew events (r ∷ rs) old s h = (
  All-map (λ (u : Text) (x : Strange u (r ∷ rs)). x.0) old h,
  jobs-AllNew events rs (r.id ∷ old) s.1
      (s.0, All-map (λ (u : Text) (x : Strange u (r ∷ rs)). x.1) old h),
)

-- An id of an event whose job is not among the rows.
abbrev Spent : List EventRow → List Row → ℤ → Type 0
Spent events rows m = (t : Text) × IsOwned events t m × Strange t rows

module _ (events : List EventRow) (next : ℕ) (a : Ascends 0 next events) where
  log-IsOwned : (id : Text) → All (IsOwned events id) (ids_of (map read_event (log_of id events)))
  log-IsOwned id =
      IsOwned-log id events (log_of id events)
        (All-keep (λ v. numbered v.id events ≡ some v) (λ (v : EventRow). eq_text v.job_id id)
          events (each_numbered 0 next events a))
        (keep-test (λ (v : EventRow). eq_text v.job_id id) events)

  pub events-AllNew :
      (rows : List Row) (old : List ℤ)
      → Separate rows
      → All (Spent events rows) old
      → AllNew old (event_ids (lines_of events rows))
  events-AllNew [] old s h = tt
  events-AllNew (r ∷ rs) old s h =
      let ids = ids_of (map read_event (log_of r.id events)) in
      let owned = log-IsOwned r.id in
      let mine : AllNew old ids =
        AllNew-both [] old ids
          (Ascends-AllNew 0 next (log_of r.id events) [] (Ascends-keep _ 0 next events a) tt)
          (All-map {Q = λ m. Lacks m old}
            (λ (m : ℤ) (x : IsOwned events r.id m).
              All-map {Q = λ n. n ≢ m}
                (λ (n : ℤ) (y : Spent events (r ∷ rs) n) (e : n ≡ m).
                  y.2.0 (one_owner events y.0 r.id n m y.1 x e))
                old h)
            ids owned) in
      let rest = events-AllNew rs (onto ids old) s.1 (
        All-onto (Spent events rs) ids old
          (All-map (λ (m : ℤ) (x : IsOwned events r.id m). (r.id, x, s.0)) ids owned)
          (All-map (λ (m : ℤ) (y : Spent events (r ∷ rs) m). (y.0, y.1, y.2.1)) old h)) in
      (AllNew-append old ids (event_ids (lines_of events rs))).1 (mine, rest)
