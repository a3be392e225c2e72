-- ===== src/Store/Schema/Migrated.antt =====
-- What the statements of a migration keep and establish, one by one.
use local_first_job_queue.Prelude.{
  ℕ, suc, ◌≡◌, refl, sym, ap, ◌∙◌, inl, inr, Bool, true, Option, none, some, List, [], ◌∷◌, ◌++◌,
  Text, eq_text_refl, Bool-cases, some-eq, arith,
}
use mathlib.Core.Path.{subst}
use local_first_job_queue.Prelude.Predicates.{All}
use local_first_job_queue.Store.Schema.{
  create_jobs, create_events, create_runs, stay, jobs_columns, events_columns, runs_columns, Column,
  Tables, Action, creates_jobs, creates_events, creates_runs, settles, ensures, has_column, created,
  exec, add_column, alter, ensure_column, act, act_all,
}

-- The columns that a table had are still its first ones.
abbrev pub Grown : Option (List Column) → Option (List Column) → Type 0
Grown none o = Unit
Grown (some cs) o = (more : List Column) × (o ≡ some (cs ++ more))

abbrev pub Grows : Tables → Tables → Type 0
Grows t u = Grown t.jobs u.jobs × Grown t.events u.events × Grown t.retention_runs u.retention_runs

append_nil : (cs : List Column) → cs ++ [] ≡ cs
append_nil [] = refl
append_nil (c ∷ cs) = ap (λ xs. c ∷ xs) (append_nil cs)

append_assoc : (xs ys zs : List Column) → (xs ++ ys) ++ zs ≡ xs ++ (ys ++ zs)
append_assoc [] ys zs = refl
append_assoc (x ∷ xs) ys zs = ap (λ l. x ∷ l) (append_assoc xs ys zs)

Grown-refl : (o : Option (List Column)) → Grown o o
Grown-refl none = tt
Grown-refl (some cs) = ([], ap some (sym (append_nil cs)))

Grown-trans : (o p q : Option (List Column)) → Grown o p → Grown p q → Grown o q
Grown-trans none p q g h = tt
Grown-trans (some cs) none q (more, e) h = cc
Grown-trans (some cs) (some ds) q (more, e) (rest, f) =
    (more ++ rest, f ∙ ap (λ l. some (l ++ rest)) (some-eq e) ∙ ap some (append_assoc cs more rest))

Grows-refl : (t : Tables) → Grows t t
Grows-refl t = (Grown-refl t.jobs, Grown-refl t.events, Grown-refl t.retention_runs)

Grows-trans : (t u v : Tables) → Grows t u → Grows u v → Grows t v
Grows-trans t u v (a, b, c) (a', b', c') = (
  Grown-trans t.jobs u.jobs v.jobs a a',
  Grown-trans t.events u.events v.events b b',
  Grown-trans t.retention_runs u.retention_runs v.retention_runs c c',
)

Grown-created : (cs : List Column) (o : Option (List Column)) → Grown o (created cs o)
Grown-created cs none = tt
Grown-created cs (some ds) = Grown-refl (some ds)

exec-Grows :
    (fails : ℕ → Bool) (f : Tables → Tables) (t : Tables) (n : ℕ)
    → Grows t (f t)
    → Grows t (exec fails f t n).1
exec-Grows fails f t n g = elim (Bool-cases (fails n)) [
  | inl q ↦ rw q (Grows-refl t)
  | inr q ↦ rw q g
]

alter-Grows :
    (fails : ℕ → Bool) (c : Column) (o : Option (List Column)) (t : Tables) (n : ℕ)
    → t.jobs ≡ o
    → Grows t (alter fails c o t n).1
unfolding alter
alter-Grows fails c none t n e = Grows-refl t
alter-Grows fails c (some cs) t n e = elim (Bool-cases (has_column c.name cs)) [
  | inl q ↦ rw q (Grows-refl t)
  | inr q ↦ rw q (
      exec-Grows fails (add_column c) t n
        (rw e (c ∷ [], refl), Grown-refl t.events, Grown-refl t.retention_runs))
]

act-Grows : (fails : ℕ → Bool) (a : Action) (t : Tables) (n : ℕ) → Grows t (act fails a t n).1
unfolding act ensure_column
act-Grows fails creates_jobs t n =
    exec-Grows fails create_jobs t n
      (Grown-created jobs_columns t.jobs, Grown-refl t.events, Grown-refl t.retention_runs)
act-Grows fails creates_events t n =
    exec-Grows fails create_events t n
      (Grown-refl t.jobs, Grown-created events_columns t.events, Grown-refl t.retention_runs)
act-Grows fails creates_runs t n =
    exec-Grows fails create_runs t n
      (Grown-refl t.jobs, Grown-refl t.events, Grown-created runs_columns t.retention_runs)
act-Grows fails settles t n = exec-Grows fails stay t n (Grows-refl t)
act-Grows fails (ensures c) t n = elim (Bool-cases (fails n)) [
  | inl q ↦ rw q (Grows-refl t)
  | inr q ↦ rw q (alter-Grows fails c t.jobs t (suc n) refl)
]

-- A table is there.
abbrev pub IsThere : Option (List Column) → Type 0
IsThere o = (cs : List Column) × (o ≡ some cs)

-- What an action that succeeds establishes.
abbrev pub Established : Action → Tables → Type 0
Established creates_jobs u = IsThere u.jobs
Established creates_events u = IsThere u.events
Established creates_runs u = IsThere u.retention_runs
Established settles u = Unit
Established (ensures c) u = (cs : List Column) × (u.jobs ≡ some cs) × (has_column c.name cs ≡ true)

has_column-append :
    (name : Text) (cs more : List Column)
    → has_column name cs ≡ true
    → has_column name (cs ++ more) ≡ true
unfolding has_column
has_column-append name [] more h = cc
has_column-append name (c ∷ cs) more h = ground (arith, has_column-append name cs more, h)

has_column-last : (c : Column) (cs : List Column) → has_column c.name (cs ++ c ∷ []) ≡ true
unfolding has_column
has_column-last c [] = rw (eq_text_refl c.name) refl
has_column-last c (d ∷ ds) = ground (arith, has_column-last c ds)

Grown-IsThere : (o p : Option (List Column)) → Grown o p → IsThere o → IsThere p
Grown-IsThere none p g (cs, e) = cc
Grown-IsThere (some ds) p (more, f) h = (ds ++ more, f)

-- Tables that grow keep what was established.
Grows-Established : (a : Action) (t u : Tables) → Grows t u → Established a t → Established a u
Grows-Established creates_jobs t u (g, _, _) h = Grown-IsThere t.jobs u.jobs g h
Grows-Established creates_events t u (_, g, _) h = Grown-IsThere t.events u.events g h
Grows-Established creates_runs t u (_, _, g) h = Grown-IsThere t.retention_runs u.retention_runs g h
Grows-Established settles t u g h = tt
Grows-Established (ensures c) t u (g, _, _) (cs, e, has) =
    let (more, f) = subst (λ o. Grown o u.jobs) e g in
    (cs ++ more, f, has_column-append c.name cs more has)

created-IsThere : (cs : List Column) (o : Option (List Column)) → IsThere (created cs o)
created-IsThere cs none = (cs, refl)
created-IsThere cs (some ds) = (ds, refl)

-- A statement that ran did what it does.
ran :
    (fails : ℕ → Bool) (f : Tables → Tables) (t : Tables) (n : ℕ) (P : Tables → Type 0)
    → (exec fails f t n).0 ≡ true
    → P (f t)
    → P (exec fails f t n).1
ran fails f t n P done p = elim (Bool-cases (fails n)) [
  | inl q ↦ absurd (cc (rw q at done))
  | inr q ↦ rw q p
]

alter-Established :
    (fails : ℕ → Bool) (c : Column) (o : Option (List Column)) (t : Tables) (n : ℕ)
    → t.jobs ≡ o
    → (alter fails c o t n).0 ≡ true
    → Established (ensures c) (alter fails c o t n).1
unfolding alter
alter-Established fails c none t n e done = cc
alter-Established fails c (some cs) t n e done = elim (Bool-cases (has_column c.name cs)) [
  | inl q ↦ rw q (cs, e, q)
  | inr q ↦ rw q (
      ran fails (add_column c) t n (Established (ensures c)) (rw q at done)
        (rw e (cs ++ c ∷ [], refl, has_column-last c cs)))
]

act-Established :
    (fails : ℕ → Bool) (a : Action) (t : Tables) (n : ℕ)
    → (act fails a t n).0 ≡ true
    → Established a (act fails a t n).1
unfolding act ensure_column
act-Established fails creates_jobs t n done =
    ran fails create_jobs t n (Established creates_jobs) done (created-IsThere jobs_columns t.jobs)
act-Established fails creates_events t n done =
    ran fails create_events t n (Established creates_events) done
      (created-IsThere events_columns t.events)
act-Established fails creates_runs t n done =
    ran fails create_runs t n (Established creates_runs) done
      (created-IsThere runs_columns t.retention_runs)
act-Established fails settles t n done = tt
act-Established fails (ensures c) t n done = elim (Bool-cases (fails n)) [
  | inl q ↦ absurd (cc (rw q at done))
  | inr q ↦ rw q (alter-Established fails c t.jobs t (suc n) refl (rw q at done))
]

pub act_all-Grows :
    (fails : ℕ → Bool) (list : List Action) (t : Tables) (n : ℕ)
    → Grows t (act_all fails list t n).1
unfolding act_all
act_all-Grows fails [] t n = Grows-refl t
act_all-Grows fails (a ∷ rest) t n =
    let (done, u, m) = act fails a t n in
    elim (Bool-cases (act fails a t n).0) [
      | inl q ↦ rw q (Grows-trans t u _ (act-Grows fails a t n) (act_all-Grows fails rest u m))
      | inr q ↦ rw q (act-Grows fails a t n)
    ]

pub act_all-Established :
    (fails : ℕ → Bool) (list : List Action) (t : Tables) (n : ℕ)
    → (act_all fails list t n).0 ≡ true
    → All (λ a. Established a (act_all fails list t n).1) list
unfolding act_all
act_all-Established fails [] t n done = tt
act_all-Established fails (a ∷ rest) t n done =
    let (ok_first, u, m) = act fails a t n in
    elim (Bool-cases (act fails a t n).0) [
      | inr q ↦ absurd (cc (rw q at done))
      | inl q ↦
          let same : (act_all fails (a ∷ rest) t n).1 ≡ (act_all fails rest u m).1 = rw q refl in
          subst (λ v. Established a v × All (λ b. Established b v) rest) (sym same)
            (
              Grows-Established a u _ (act_all-Grows fails rest u m)
                  (act-Established fails a t n q),
              act_all-Established fails rest u m (rw q at done),
            )
    ]
