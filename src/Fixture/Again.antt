-- ===== src/Fixture/Again.antt =====
-- Loading the sample jobs a second time.
use local_first_job_queue.Prelude.{
  ◌+◌, bytes, ℕ, suc, ◌≡◌, refl, sym, ap, ◌∙◌, inl, inr, ◌⊎◌, Bool, true, false, none, some, List,
  [], ◌∷◌, ◌++◌, Text, find?, eq_text_refl, Bool-cases, Option-cases, arith,
}
use mathlib.Core.Path.{subst}
use local_first_job_queue.Prelude.Predicates.{All, All-find?}
use local_first_job_queue.Clock.{Time}
use local_first_job_queue.Models.{Job}
use local_first_job_queue.Store.{
  Row, Db, World, Env, Exec, Error, Result, ok, err, duplicate_id, time_now, new_text, statement,
  pure, ◌>>=◌,
}
use local_first_job_queue.Store.Keeps.{Keeps, Keeps-bind, Keeps-statement, Keeps-pure, keeps_rules}
use local_first_job_queue.Store.Rows.{has_id}
use local_first_job_queue.Store.Insert.{
  row_of, insert_job, insert_row, conflicting, has_key, insert_event, append_event,
}
use local_first_job_queue.Store.Lookup.{find?-append}
use local_first_job_queue.Store.Readable.{IsReadable, scanned, scan_job-IsReadable}
use local_first_job_queue.Statements.{Follows}
use local_first_job_queue.Statements.Reading.{Reads, run_all-Reads}
use local_first_job_queue.Statements.Refine.{Follows-refl, enqueue_op-Follows}
use local_first_job_queue.Queue.{EnqueueConfig, enqueue_defaults, enqueue, finish_enqueue, new_job}
use local_first_job_queue.Queue.Options.{with_idempotency_key}
use local_first_job_queue.Queue.Idempotency.{IsQuiet, enqueue_again}
use local_first_job_queue.Queue.Enqueueing.{enqueue_lem}
use local_first_job_queue.Fixture.{
  workloads, sample_key, samples_for, samples_of, Sample, samples, load_each, load_sample_data,
}

-- Some job has the key.
abbrev pub Holds : Text → Db → Type 0
Holds key d = (r : Row) × (find? (has_key key) d.jobs ≡ some r)

insert_row-Holds : (key : Text) (row : Row) (d : Db) → Holds key d → Holds key (insert_row row d).1
unfolding insert_row
insert_row-Holds key row d (r, q) = elim (Option-cases (conflicting row.idempotency_key d.jobs)) [
  | inr (held, a) ↦ rw a (r, q)
  | inl a ↦ elim (Option-cases (find? (has_id row.id) d.jobs)) [
    | inr (taken, b) ↦ rw (a, b) (r, q)
    | inl b ↦ rw (a, b) (r, find?-append (has_key key) d.jobs (row ∷ []) r q)
  ]
]

module _ (e : Env) (key : Text) where
  insert_job-Holds : (j : Job) → Keeps (Holds key) (insert_job e j)
  unfolding insert_job
  insert_job-Holds j = Keeps-statement e _ (insert_row-Holds key (row_of j))

  finish_enqueue-Holds :
      (cfg : EnqueueConfig) (j : Job) (now : Time) (b : Bool)
      → Keeps (Holds key) (finish_enqueue e cfg j now b)
  unfolding finish_enqueue append_event insert_event
  finish_enqueue-Holds cfg j now true =
      Keeps-bind _ _ (Keeps-statement e _ (λ d h. h)) λ _. Keeps-pure j
  finish_enqueue-Holds cfg j now false = search keeps_rules

  enqueue-Holds :
      (kind payload : Text) (cfg : EnqueueConfig) → Keeps (Holds key) (enqueue e kind payload cfg)
  unfolding enqueue
  enqueue-Holds kind payload cfg = search (keeps_rules, insert_job-Holds, finish_enqueue-Holds)

  load_each-Holds : (xs : List Sample) → Keeps (Holds key) (load_each e xs)
  unfolding load_each
  load_each-Holds [] = Keeps-pure []
  load_each-Holds (x ∷ xs) =
      Keeps-bind _ _ (enqueue-Holds x.kind x.payload (with_idempotency_key x.key enqueue_defaults))
        λ j. Keeps-bind _ _ (load_each-Holds xs) λ js. Keeps-pure (j ∷ js)

find?-last :
    (p : Row → Bool) (xs : List Row) (x : Row)
    → find? p xs ≡ none
    → p x ≡ true
    → find? p (xs ++ x ∷ []) ≡ some x
unfolding find?
find?-last p [] x h t = rw t refl
find?-last p (y ∷ ys) x h t = elim (Bool-cases (p y)) [
  | inl q ↦ absurd (ground (arith, h, q))
  | inr q ↦ rw q (find?-last p ys x (rw q at h) t)
]

module _ (e : Env) (quiet : IsQuiet e) (kind payload : Text) (cfg : EnqueueConfig) (c : ℕ)
    (cs id : Text) (key : cfg.idempotency_key ≡ c ∷ cs) (w : World)
    (drawn : e.random w.ticks ≡ some id) where
  -- An id that is taken is an error.
  refused :
      (t : Row)
      → find? (has_key (c ∷ cs)) w.db.jobs ≡ none
      → find? (has_id id) w.db.jobs ≡ some t
      → (enqueue e kind payload cfg w).0 ≡ err duplicate_id
  unfolding enqueue insert_job insert_row row_of new_job ◌>>=◌ time_now new_text statement
  refused t q f = rw (drawn, key, q, f, quiet (suc (suc w.ticks))) refl

  -- Once an enqueue succeeded, some job has its key.
  enqueue-keyed :
      (j : Job)
      → (enqueue e kind payload cfg w).0 ≡ ok j
      → Holds (c ∷ cs) (enqueue e kind payload cfg w).1.db
  unfolding new_job row_of
  enqueue-keyed j done = elim (Option-cases (find? (has_key (c ∷ cs)) w.db.jobs)) [
    | inr (r, q) ↦ (enqueue-Holds e (c ∷ cs) kind payload cfg).at w (r, q)
    | inl q ↦ elim (Option-cases (find? (has_id id) w.db.jobs)) [
      | inr (t, f) ↦ absurd (cc (done, refused t q f))
      | inl f ↦
          let (_, jobs, _) = enqueue_lem e w kind payload cfg id quiet drawn (rw key q) f in
          (
            _,
            ap (find? (has_key (c ∷ cs))) jobs
                ∙ find?-last (has_key (c ∷ cs)) w.db.jobs _ q (rw key (eq_text_refl (c ∷ cs))),
          )
    ]
  ]

-- A key that is not empty.
abbrev IsKeyed : Sample → Type 0
IsKeyed x = (c : ℕ) × (cs : Text) × (x.key ≡ c ∷ cs)

sample-IsKeyed :
    (kind payload : Text) (i : ℕ)
    → IsKeyed (record { kind = kind; payload = payload; key = sample_key kind i })
sample-IsKeyed kind payload i = (b's', bytes "ample:" ++ (kind ++ b':' ∷ (b'0' + i) ∷ []), refl)

samples_for-IsKeyed :
    (encode : Text → ℕ → Time → Text) (now : Time) (kinds : List Text)
    → All IsKeyed (samples_for encode now kinds)
unfolding samples_for samples_of
samples_for-IsKeyed encode now [] = tt
samples_for-IsKeyed encode now (kind ∷ kinds) = (
  sample-IsKeyed kind (encode kind 0 now) 0,
  (
    sample-IsKeyed kind (encode kind 1 now) 1,
    (sample-IsKeyed kind (encode kind 2 now) 2, samples_for-IsKeyed encode now kinds),
  ),
)

Result-cases {ℓ} :
    {A : Type ℓ} (r : Result A) → ((a : A) × (r ≡ ok a)) ⊎ ((x : Error) × (r ≡ err x))
Result-cases (ok a) = inl (a, refl)
Result-cases (err x) = inr (x, refl)

-- The random source always answers.
abbrev pub Answers : Env → Type 0
Answers e = (k : ℕ) → (id : Text) × (e.random k ≡ some id)

load_each-Follows : (d : Db) (e : Env) (xs : List Sample) → Keeps (Follows d) (load_each e xs)
unfolding load_each
load_each-Follows d e [] = Keeps-pure []
load_each-Follows d e (x ∷ xs) =
    Keeps-bind _ _
      (enqueue_op-Follows d e x.kind x.payload (with_idempotency_key x.key enqueue_defaults))
      λ j. Keeps-bind _ _ (load_each-Follows d e xs) λ js. Keeps-pure (j ∷ js)

load_each-Reads :
    (e : Env) (xs : List Sample) (w : World) → Reads w.db → Reads (load_each e xs w).1.db
load_each-Reads e xs w reads =
    let f = (load_each-Follows w.db e xs).at w (Follows-refl w.db) in
    subst Reads f.result (run_all-Reads f.statements w.db reads)

module _ (e : Env) (quiet : IsQuiet e) (answers : Answers e) where
  -- After a load that succeeded, each key is some job's.
  load_each-keyed :
      (xs : List Sample) (w : World) (js : List Job)
      → All IsKeyed xs
      → (load_each e xs w).0 ≡ ok js
      → All (λ x. Holds x.key (load_each e xs w).1.db) xs
  unfolding load_each ◌>>=◌ with_idempotency_key pure
  load_each-keyed [] w js keyed done = tt
  load_each-keyed (x ∷ xs) w js keyed done =
      let cfg = with_idempotency_key x.key enqueue_defaults in
      let (c, cs, key) = keyed.0 in
      let v = (enqueue e x.kind x.payload cfg w).1 in
      elim (Result-cases (enqueue e x.kind x.payload cfg w).0) [
        | inr (bad, q) ↦ absurd (cc (rw q at done))
        | inl (j, q) ↦ elim (Result-cases (load_each e xs v).0) [
          | inr (bad, p) ↦ absurd (cc (rw (q, p) at done))
          | inl (ks, p) ↦
              let held =
                enqueue-keyed e quiet x.kind x.payload cfg c cs (answers w.ticks).0 key w
                  (answers w.ticks).1 j q in
              let same : (load_each e (x ∷ xs) w).1.db ≡ (load_each e xs v).1.db = rw (q, p) refl in
              subst (λ d. Holds x.key d × All (λ y. Holds y.key d) xs) (sym same)
                (
                  subst (λ k. Holds k (load_each e xs v).1.db) (sym key)
                      ((load_each-Holds e (c ∷ cs) xs).at v held),
                  load_each-keyed xs v ks keyed.1 p,
                )
        ]
      ]

  -- Where each key is some job's, a load returns these jobs and changes no table.
  load_each-again :
      (xs : List Sample) (w : World)
      → Reads w.db
      → All IsKeyed xs
      → All (λ x. Holds x.key w.db) xs
      → (js : List Job) × ((load_each e xs w).0 ≡ ok js) × ((load_each e xs w).1.db ≡ w.db)
  unfolding load_each ◌>>=◌ with_idempotency_key pure
  load_each-again [] w reads keyed held = ([], refl, refl)
  load_each-again (x ∷ xs) w reads keyed held =
      let (c, cs, key) = keyed.0 in
      let (r, q) = subst (λ k. Holds k w.db) key held.0 in
      let readable = All-find? IsReadable (has_key (c ∷ cs)) w.db.jobs r reads.jobs q in
      let first =
        enqueue_again e w x.kind x.payload (with_idempotency_key x.key enqueue_defaults) c cs
          (answers w.ticks).0 r (scanned r readable) quiet (answers w.ticks).1 key q
          (scan_job-IsReadable r readable) in
      let (js, p, same) =
        load_each-again xs (record w { ticks = w.ticks + 4 }) reads keyed.1 held.1 in
      (scanned r readable ∷ js, rw (first, p) refl, rw (first, p) same)

-- A sample's key does not depend on the time.
same_keys :
    (P : Text → Type 0) (encode : Text → ℕ → Time → Text) (s t : Time) (kinds : List Text)
    → All (λ x. P x.key) (samples_for encode s kinds)
    → All (λ x. P x.key) (samples_for encode t kinds)
unfolding samples_for samples_of
same_keys P encode s t [] h = tt
same_keys P encode s t (kind ∷ kinds) (h, (i, (j, rest))) =
    (h, (i, (j, same_keys P encode s t kinds rest)))

module _ (e : Env) (encode : Text → ℕ → Time → Text) (kinds : List Text) where
  loads : Exec (List Job)
  unfolding ◌>>=◌
  loads = do now ← time_now e; load_each e (samples_for encode now kinds)

  loads_again :
      (w : World) (js : List Job)
      → IsQuiet e
      → Answers e
      → Reads w.db
      → (loads w).0 ≡ ok js
      → (ks : List Job) × ((loads (loads w).1).0 ≡ ok ks)
        × ((loads (loads w).1).1.db ≡ (loads w).1.db)
  unfolding loads ◌>>=◌ time_now
  loads_again w js quiet answers reads done =
      let u : World = record w { ticks = suc w.ticks } in
      let xs = samples_for encode (e.now w.ticks) kinds in
      let v = (load_each e xs u).1 in
      load_each-again e quiet answers (samples_for encode (e.now v.ticks) kinds)
        (record v { ticks = suc v.ticks }) (load_each-Reads e xs u reads)
        (samples_for-IsKeyed encode (e.now v.ticks) kinds)
        (same_keys (λ k. Holds k v.db) encode (e.now w.ticks) (e.now v.ticks) kinds
          (load_each-keyed e quiet answers xs u js
            (samples_for-IsKeyed encode (e.now w.ticks) kinds) done))

-- Loading the sample jobs again, at whatever time and with whatever payloads, after a load that
-- succeeded, on tables whose timestamps parse, where no statement fails and the random source
-- answers, succeeds and changes no table.
pub load_again :
    (e : Env) (encode : Text → ℕ → Time → Text) (w : World) (js : List Job)
    → IsQuiet e
    → Answers e
    → Reads w.db
    → (load_sample_data e encode w).0 ≡ ok js
    → let v = (load_sample_data e encode w).1 in
      (ks : List Job) × ((load_sample_data e encode v).0 ≡ ok ks)
      × ((load_sample_data e encode v).1.db ≡ v.db)
unfolding load_sample_data samples loads
load_again e encode w js = loads_again e encode workloads w js
