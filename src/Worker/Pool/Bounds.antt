-- ===== src/Worker/Pool/Bounds.antt =====
-- How many jobs a worker runs at a time, and what runs when `Run` of internal/worker/worker.go
-- returns.
use local_first_job_queue.Prelude.{
  ℕ, ◌+◌, ◌≤◌, ◌≡◌, refl, ◌≢◌, ◌⊎◌, inl, inr, true, false, some, arith, pos,
}
use local_first_job_queue.Worker.Pool.{
  Config, Phase, looping, waiting, returned, Pool, start_pool, Step, starts, gives_back, leaves,
  is_cancelled, retention_ends, stops, returns, Reaches, here, then_step,
}

-- What holds in each phase.
abbrev PhaseHolds : Phase → Pool → Type 0
PhaseHolds looping p = Unit
PhaseHolds waiting p = p.cancelled ≡ true
PhaseHolds returned p =
    (p.cancelled ≡ true) × (p.working ≡ 0) × (p.leaving ≡ 0) × (p.retaining ≡ false)

record IsSteady (n : ℕ) (p : Pool) : Type 0 where
  balance : p.permits + p.working ≡ n
  phase_holds : PhaseHolds p.phase p

Step-IsSteady : (n : ℕ) (p q : Pool) → Step p q → IsSteady n p → IsSteady n q
Step-IsSteady n p q (starts looping_phase some_left) h = ground (arith, h.balance, h.phase_holds)
Step-IsSteady n p q (gives_back some_working) h = ground (arith, h.balance, h.phase_holds)
Step-IsSteady n p q (leaves some_leaving) h = ground (arith, h.balance, h.phase_holds)
Step-IsSteady n p q is_cancelled h = ground (arith, h.balance, h.phase_holds)
Step-IsSteady n p q (retention_ends c) h = ground (arith, h.balance, h.phase_holds)
Step-IsSteady n p q (stops l c) h = ground (arith, h.balance, h.phase_holds)
Step-IsSteady n p q (returns w none_left r) h = ground (arith, h.balance, h.phase_holds)

Reaches-IsSteady : (n : ℕ) (p q : Pool) → Reaches p q → IsSteady n p → IsSteady n q
Reaches-IsSteady n p q here h = h
Reaches-IsSteady n p q (then_step {q = r} before s) h =
    Step-IsSteady n r q s (Reaches-IsSteady n p r before h)

start_pool-IsSteady :
    (c : Config) (n : ℕ) (p : Pool) → c.concurrency ≡ pos n → start_pool c ≡ some p → IsSteady n p
unfolding start_pool
start_pool-IsSteady c n p e h = ground (arith, e, h)

-- Cancelled, with every permit back, no job's goroutine left and no retention loop.
abbrev pub IsOver : ℕ → Pool → Type 0
IsOver n p =
    (p.phase ≡ returned)
    × (p.cancelled ≡ true)
    × (p.permits ≡ n)
    × (p.working ≡ 0)
    × (p.leaving ≡ 0)
    × (p.retaining ≡ false)

over : (n : ℕ) (f : Phase) (p : Pool) → f ≡ returned → p.phase ≡ f → IsSteady n p → IsOver n p
over n f p is_returned same h = ground (arith, h.balance, h.phase_holds)

-- No step leads out of the last phase.
Step-returned : (p q : Pool) → Step p q → p.phase ≡ returned → q.phase ≡ returned
Step-returned p q (starts looping_phase some_left) h = cc
Step-returned p q (gives_back some_working) h = h
Step-returned p q (leaves some_leaving) h = h
Step-returned p q is_cancelled h = h
Step-returned p q (retention_ends c) h = h
Step-returned p q (stops l c) h = cc
Step-returned p q (returns w none_left r) h = refl

Reaches-returned : (p q : Pool) → Reaches p q → p.phase ≡ returned → q.phase ≡ returned
Reaches-returned p q here h = h
Reaches-returned p q (then_step {q = r} before s) h =
    Step-returned r q s (Reaches-returned p r before h)

is_returned : (f : Phase) → (f ≢ returned) ⊎ (f ≡ returned)
is_returned looping = inl (λ q. cc)
is_returned waiting = inl (λ q. cc)
is_returned returned = inr refl

-- A worker whose concurrency is not negative runs as many jobs at a time as it allows, at most, in
-- whatever order the goroutines take their steps. And once `Run` has returned, whatever steps could
-- follow, every permit is back, no job's goroutine and no retention loop runs, and none starts.
pub run_bounds :
    (c : Config) (n : ℕ) (p q later : Pool)
    → c.concurrency ≡ pos n
    → start_pool c ≡ some p
    → Reaches p q
    → Reaches q later
    → (q.working ≤ n) × ((q.phase ≢ returned) ⊎ IsOver n later)
run_bounds c n p q later e h r more =
    let s = Reaches-IsSteady n p q r (start_pool-IsSteady c n p e h) in
    (
      omega (arith, s.balance),
      elim (is_returned q.phase) [
        | inl runs ↦ inl runs
        | inr done ↦ inr (
            over n later.phase later (Reaches-returned q later more done) refl
              (Reaches-IsSteady n q later more s))
      ],
    )
