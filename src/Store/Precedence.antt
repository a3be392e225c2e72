-- ===== src/Store/Precedence.antt =====
-- Which jobs wait to be leased, and which of them goes first, in the words of the queue's
-- documentation: the conditions and the order of `LeaseJob` of internal/queue/sqlite.go, one
-- comparison after the other.
use local_first_job_queue.Prelude.{
  ◌≡◌, ◌≢◌, ◌⊎◌, inl, inr, refl, true, false, Bool, Option, none, some, Text, eq_text, eq_text_iff,
  arith, Ordering, compare_text, compare_ℤ, ℤ, pos, ◌+ℤ◌, ◌≤ℤ◌, ◌<ℤ◌, leb_ℤ, Bool-cases, ◌&&◌, sym,
}
use local_first_job_queue.Prelude.Order.{◌then_by◌}
use local_first_job_queue.Clock.{Stamp, stamp_le, compare_stamp}
use local_first_job_queue.Models.{JobState, pending, is_pending}
use local_first_job_queue.Store.{Row, Env}
use local_first_job_queue.Store.Claim.{
  is_ready, is_due, ready_at, coalesce, plain_order, aged_priority, pending_order,
}

-- No time to run at, or one that is not after now, as texts.
abbrev pub HasCome : Option Stamp → Stamp → Type 0
HasCome none now = Unit
HasCome (some t) now = stamp_le t now ≡ true

-- A pending job of the kind whose time has come.
abbrev pub Waits : Text → Stamp → Row → Type 0
Waits kind now r = (r.kind ≡ kind) × (r.state ≡ pending) × HasCome r.run_at now

-- The first number is greater, or they are equal and the rest decides.
abbrev pub HigherOr : ℤ → ℤ → Type 0 → Type 0
HigherOr a b Rest = (b <ℤ a) ⊎ ((b ≤ℤ a) × Rest)

-- The first text is before the second, or they are equal and the rest decides.
abbrev pub EarlierOr : Stamp → Stamp → Type 0 → Type 0
EarlierOr a b Rest = (compare_stamp a b ≡ Ordering.lt) ⊎ ((compare_stamp a b ≡ Ordering.eq) × Rest)

-- Since when a job waits: its time to run at, and without one that of its creation.
abbrev pub waits_since : Option Stamp → Stamp → Stamp
waits_since none created_at = created_at
waits_since (some t) created_at = t

-- Higher priority first, then the longer wait, the older job, and the smaller id.
abbrev pub GoesFirstUnaged : Row → Row → Type 0
GoesFirstUnaged a b = HigherOr a.priority b.priority (
    EarlierOr (waits_since a.run_at a.created_at) (waits_since b.run_at b.created_at)
      (EarlierOr a.created_at b.created_at (compare_text a.id b.id ≢ Ordering.gt)))

-- The points that a job has for its wait, on top of its priority.
abbrev pub aged : Env → Stamp → Row → ℤ
aged e now r = r.priority +ℤ e.age_points now (waits_since r.run_at r.created_at) e.aging_interval

-- With a positive aging interval the aged priority decides before the rest.
abbrev pub GoesFirst : Env → Stamp → Row → Row → Type 0
GoesFirst e now a b =
    ((e.aging_interval ≤ℤ pos 0) × GoesFirstUnaged a b)
    ⊎ ((pos 0 <ℤ e.aging_interval) × HigherOr (aged e now a) (aged e now b) (GoesFirstUnaged a b))

ready_state : (s : JobState) → is_pending s ≡ true → s ≡ pending
ready_state s h = ground (arith, h)

due : (t : Option Stamp) (now : Stamp) → is_due t now ≡ true → HasCome t now
due none now h = tt
due (some t) now h = h

come : (t : Option Stamp) (now : Stamp) → HasCome t now → is_due t now ≡ true
come none now h = refl
come (some t) now h = h

both : (a b : Bool) → (a && b) ≡ true → (a ≡ true) × (b ≡ true)
both true b h = (refl, h)
both false b h = cc

pub is_ready-Waits :
    (kind : Text) (now : Stamp) (r : Row) → is_ready kind now r ≡ true → Waits kind now r
unfolding is_ready
is_ready-Waits kind now r h =
    let (front, time) = both (eq_text r.kind kind && is_pending r.state) (is_due r.run_at now) h in
    let (same, waiting) = both (eq_text r.kind kind) (is_pending r.state) front in
    ((eq_text_iff r.kind kind).0 same, ready_state r.state waiting, due r.run_at now time)

pub Waits-is_ready :
    (kind : Text) (now : Stamp) (r : Row) → Waits kind now r → is_ready kind now r ≡ true
unfolding is_ready
Waits-is_ready kind now r (same, waiting, time) =
    rw ((eq_text_iff r.kind kind).1 same, waiting, come r.run_at now time) refl

higher :
    (a b : ℤ) (o : Ordering) (Rest : Type 0)
    → (compare_ℤ b a then_by o) ≢ Ordering.gt
    → (o ≢ Ordering.gt → Rest)
    → HigherOr a b Rest
higher a b o Rest h rest = by_case (compare_ℤ b a) refl
  where
    by_case : (c : Ordering) → compare_ℤ b a ≡ c → HigherOr a b Rest
    by_case Ordering.lt q = inl (ground (arith, q))
    by_case Ordering.eq q = inr (ground (arith, q), rest (rw q at h))
    by_case Ordering.gt q = absurd (h (rw q refl))

earlier :
    (a b : Stamp) (o : Ordering) (Rest : Type 0)
    → (compare_stamp a b then_by o) ≢ Ordering.gt
    → (o ≢ Ordering.gt → Rest)
    → EarlierOr a b Rest
earlier a b o Rest h rest = by_case (compare_stamp a b) refl
  where
    by_case : (c : Ordering) → compare_stamp a b ≡ c → EarlierOr a b Rest
    by_case Ordering.lt q = inl q
    by_case Ordering.eq q = inr (q, rest (rw q at h))
    by_case Ordering.gt q = absurd (h (rw q refl))

ready_at-waits_since : (t : Option Stamp) (s : Stamp) → coalesce t s ≡ waits_since t s
ready_at-waits_since none s = refl
ready_at-waits_since (some t) s = refl

plain_order-GoesFirst : (a b : Row) → plain_order a b ≢ Ordering.gt → GoesFirstUnaged a b
unfolding plain_order
plain_order-GoesFirst a b h = higher a.priority b.priority _ _ h λ h'.
    rw
      (
        sym (ready_at-waits_since a.run_at a.created_at),
        sym (ready_at-waits_since b.run_at b.created_at),
      )
      (earlier (ready_at a) (ready_at b) _ _ h'
        (λ h''. earlier a.created_at b.created_at _ _ h'' (λ q. q)))

pub pending_order-GoesFirst :
    (e : Env) (now : Stamp) (a b : Row)
    → pending_order e now a b ≢ Ordering.gt
    → GoesFirst e now a b
unfolding pending_order aged_priority
pending_order-GoesFirst e now a b h = elim (Bool-cases (leb_ℤ e.aging_interval (pos 0))) [
  | inl q ↦ inl (ground (arith, q), plain_order-GoesFirst a b (rw q at h))
  | inr q ↦ inr (
    ground (arith, q),
    rw
        (
          sym (ready_at-waits_since a.run_at a.created_at),
          sym (ready_at-waits_since b.run_at b.created_at),
        )
        (higher (aged_priority e now a) (aged_priority e now b) _ _ (rw q at h)
          (plain_order-GoesFirst a b)),
  )
]
