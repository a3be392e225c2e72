-- ===== src/Store/Removal.antt =====
-- Which rows a retention run of internal/queue/prune.go removes, row by row.
use local_first_job_queue.Prelude.{
  ℕ, suc, ◌≤◌, ◌≡◌, ◌⊎◌, refl, sym, inl, inr, Bool, true, false, not, ◌&&◌, List, [], ◌∷◌, keep,
  count, Bool-cases, arith, pos, leb_ℤ, ◌<ℤ◌, eq_text, eq_text_iff, leb, Text, subst,
}
use mathlib.Core.List.{Memᴰ}
use local_first_job_queue.Clock.{Time, Stamp, sub, format, stamp_lt}
use local_first_job_queue.Models.{
  JobState, completed, failed, dead_letter, is_terminal, PrunePolicy,
}
use local_first_job_queue.Store.{Row, EventRow, Db}
use local_first_job_queue.Store.Prune.{is_old, of_old_job, is_listed, is_beyond, row_number}
use local_first_job_queue.Store.Retention.{kept_jobs, events_by_age, kept_events}

-- The second list is the first without the elements of which `Goes` holds, in its order.
pub data Without {A : Type 0} (Goes : A → Type 0) : List A → List A → Type 0 where
  end : Without Goes [] []
  goes : {x : A} {xs ys : List A} → Goes x → Without Goes xs ys → Without Goes (x ∷ xs) ys
  stays : {x : A} {xs ys : List A} → ¬ Goes x → Without Goes xs ys → Without Goes (x ∷ xs) (x ∷ ys)

-- A job that is done for, completed, failed or in the dead letters, and was last changed before
-- the age limit, where the policy has one.
abbrev pub IsOutdated : PrunePolicy → Time → Row → Type 0
IsOutdated p started r =
    (pos 0 <ℤ p.max_job_age)
    × ((r.state ≡ completed) ⊎ ((r.state ≡ failed) ⊎ (r.state ≡ dead_letter)))
    × (stamp_lt r.updated_at (format (sub started p.max_job_age)) ≡ true)

-- The event is of such a job.
abbrev pub IsOfOutdated : PrunePolicy → Time → List Row → EventRow → Type 0
IsOfOutdated p started jobs v = (r : Row) × Memᴰ r jobs × IsOutdated p started r × (r.id ≡ v.job_id)

-- The number of the job's events from this one on.
pub data Newest (v : EventRow) : List EventRow → ℕ → Type 0 where
  no_event : Newest v [] 0
  counts :
      {u : EventRow} {us : List EventRow} {n : ℕ}
      → u.job_id ≡ v.job_id
      → v.id ≤ u.id
      → Newest v us n
      → Newest v (u ∷ us) (suc n)
  skips :
      {u : EventRow} {us : List EventRow} {n : ℕ}
      → ¬ ((u.job_id ≡ v.job_id) × (v.id ≤ u.id))
      → Newest v us n
      → Newest v (u ∷ us) n

-- The event is not among the newest of its job, as many as the cap allows, where the policy has one.
abbrev pub IsSurplus : PrunePolicy → List EventRow → EventRow → Type 0
IsSurplus p events v =
    (pos 0 <ℤ p.max_events_per_job)
    × ((n : ℕ) × Newest v events n × (p.max_events_per_job <ℤ pos n))

module _ {A : Type 0} (Goes : A → Type 0) where
  without :
      (p : A → Bool)
      → ((x : A) → p x ≡ true → Goes x)
      → ((x : A) → Goes x → p x ≡ true)
      → (xs : List A) → Without Goes xs (keep (λ x. not (p x)) xs)
  unfolding keep
  without p sound complete [] = end
  without p sound complete (x ∷ xs) = elim (Bool-cases (p x)) [
    | inl q ↦ rw q (goes (sound x q) (without p sound complete xs))
    | inr q ↦ rw q (stays (λ g. cc (q, complete x g)) (without p sound complete xs))
  ]

  untouched : ((x : A) → ¬ Goes x) → (xs : List A) → Without Goes xs xs
  untouched never [] = end
  untouched never (x ∷ xs) = stays (never x) (untouched never xs)

both : (a b : Bool) → (a && b) ≡ true → (a ≡ true) × (b ≡ true)
both true b h = (refl, h)
both false b h = cc

terminal :
    (s : JobState) → is_terminal s ≡ true → (s ≡ completed) ⊎ ((s ≡ failed) ⊎ (s ≡ dead_letter))
terminal completed h = inl refl
terminal failed h = inr (inl refl)
terminal dead_letter h = inr (inr refl)
terminal s h = absurd (ground (arith, h))

terminal_state :
    (s : JobState) → (s ≡ completed) ⊎ ((s ≡ failed) ⊎ (s ≡ dead_letter)) → is_terminal s ≡ true
terminal_state s (inl e) = rw e refl
terminal_state s (inr (inl e)) = rw e refl
terminal_state s (inr (inr e)) = rw e refl

module _ (p : PrunePolicy) (started : Time) where
  abbrev cutoff : Stamp
  cutoff = format (sub started p.max_job_age)

  is_old-IsOutdated :
      (r : Row)
      → leb_ℤ p.max_job_age (pos 0) ≡ false
      → is_old cutoff r ≡ true
      → IsOutdated p started r
  unfolding is_old
  is_old-IsOutdated r limited h =
      let (ended, before) = both (is_terminal r.state) (stamp_lt r.updated_at cutoff) h in
      (ground (arith, limited), terminal r.state ended, before)

  IsOutdated-is_old : (r : Row) → IsOutdated p started r → is_old cutoff r ≡ true
  unfolding is_old
  IsOutdated-is_old r (limited, ended, before) = rw (terminal_state r.state ended, before) refl

  is_listed-Memᴰ :
      (id : Text) (jobs : List Row)
      → leb_ℤ p.max_job_age (pos 0) ≡ false
      → is_listed id (keep (is_old cutoff) jobs) ≡ true
      → (r : Row) × Memᴰ r jobs × IsOutdated p started r × (r.id ≡ id)
  unfolding is_listed keep
  is_listed-Memᴰ id [] limited h = cc
  is_listed-Memᴰ id (r ∷ rs) limited h = elim (Bool-cases (is_old cutoff r)) [
    | inr q ↦ let (s, m, o, e) = is_listed-Memᴰ id rs limited (rw q at h) in (s, Memᴰ.tail m, o, e)
    | inl q ↦ elim (Bool-cases (eq_text r.id id)) [
      | inl t ↦ (r, Memᴰ.head refl, is_old-IsOutdated r limited q, (eq_text_iff r.id id).0 t)
      | inr t ↦
          let (s, m, o, e) = is_listed-Memᴰ id rs limited (rw (q, t) at h) in (s, Memᴰ.tail m, o, e)
    ]
  ]

  Memᴰ-is_listed :
      (id : Text) (jobs : List Row) (r : Row)
      → Memᴰ r jobs
      → IsOutdated p started r
      → r.id ≡ id
      → is_listed id (keep (is_old cutoff) jobs) ≡ true
  unfolding is_listed keep
  Memᴰ-is_listed id [] r m o e = elim m [ ]
  Memᴰ-is_listed id (x ∷ xs) r (Memᴰ.head same) o e =
      rw (sym same, IsOutdated-is_old r o, (eq_text_iff r.id id).1 e) refl
  Memᴰ-is_listed id (x ∷ xs) r (Memᴰ.tail m) o e =
      let rest = Memᴰ-is_listed id xs r m o e in ground (arith, rest)

  pub jobs-Without : (d : Db) → Without (IsOutdated p started) d.jobs (kept_jobs p started d)
  jobs-Without d = elim (Bool-cases (leb_ℤ p.max_job_age (pos 0))) [
    | inl q ↦ rw q (untouched _ (λ r o. ground (arith, q, o.0)) d.jobs)
    | inr q ↦ rw q (without _ (is_old cutoff) (λ r. is_old-IsOutdated r q) IsOutdated-is_old d.jobs)
  ]

  pub events-Without :
      (d : Db) → Without (IsOfOutdated p started d.jobs) d.events (events_by_age p started d)
  events-Without d = elim (Bool-cases (leb_ℤ p.max_job_age (pos 0))) [
    | inl q ↦ rw q (untouched _ (λ v (r, m, o, e). ground (arith, q, o.0)) d.events)
    | inr q ↦ rw q (
        without _ (of_old_job cutoff d.jobs) (λ v. is_listed-Memᴰ v.job_id d.jobs q)
          (λ v (r, m, o, e). Memᴰ-is_listed v.job_id d.jobs r m o e) d.events)
  ]

count-Newest :
    (v : EventRow) (us : List EventRow)
    → Newest v us (count (λ u. eq_text u.job_id v.job_id && leb v.id u.id) us)
unfolding count
count-Newest v [] = no_event
count-Newest v (u ∷ us) = elim (Bool-cases (eq_text u.job_id v.job_id && leb v.id u.id)) [
  | inl q ↦
      let (same, later) = both (eq_text u.job_id v.job_id) (leb v.id u.id) q in
      subst (Newest v (u ∷ us)) (ground (arith, q)) (
        counts ((eq_text_iff u.job_id v.job_id).0 same) (ground (arith, later)) (count-Newest v us))
  | inr q ↦ subst (Newest v (u ∷ us)) (ground (arith, q)) (
      skips (λ (same, later). ground (arith, q, (eq_text_iff u.job_id v.job_id).1 same, later))
        (count-Newest v us))
]

Newest-unique :
    (v : EventRow) (us : List EventRow) (m n : ℕ) → Newest v us m → Newest v us n → m ≡ n
Newest-unique v [] m n no_event no_event = refl
Newest-unique v (u ∷ us) m n (counts {n = k} s l a) (counts {n = j} s' l' b) =
    omega (arith, Newest-unique v us k j a b)
Newest-unique v (u ∷ us) m n (counts s l a) (skips differs b) = absurd (differs (s, l))
Newest-unique v (u ∷ us) m n (skips differs a) (counts s l b) = absurd (differs (s, l))
Newest-unique v (u ∷ us) m n (skips differs a) (skips differs' b) = Newest-unique v us m n a b

pub cap-Without :
    (p : PrunePolicy) (events : List EventRow)
    → Without (IsSurplus p events) events (kept_events p events)
unfolding row_number
cap-Without p events = elim (Bool-cases (leb_ℤ p.max_events_per_job (pos 0))) [
  | inl q ↦ rw q (untouched _ (λ v o. ground (arith, q, o.0)) events)
  | inr q ↦ rw q (
      without _ (is_beyond p.max_events_per_job events)
        (λ v h.
          (ground (arith, q), (row_number events v, count-Newest v events, ground (arith, h))))
        (λ v (limited, (n, newest, over)).
          ground (arith, over, Newest-unique v events _ n (count-Newest v events) newest))
        events)
]
