-- ===== src/Worker/Pool.antt =====
-- internal/worker/worker.go: the options of a worker, and `Run` with its semaphore, its wait group
-- and the loop of the retention runs beside it.
--
-- The goroutines of one `Run` take steps in any order. What a job's goroutine does to the queue is
-- `process_one`; here it only holds a permit, and has a place in the wait group until its last
-- deferred call.
pub mod Bounds
use local_first_job_queue.Prelude.{
  ℕ, zero, suc, ◌+◌, ◌-◌, ◌<◌, ◌≡◌, ◌⊎◌, Bool, not, leb_ℤ, true, false, Option, none, some, List,
  [], ◌∷◌, Text, ℤ, pos, negsuc, pos_part, ◌*◌,
}
use local_first_job_queue.Clock.{Duration, nanos}
use local_first_job_queue.Models.{PrunePolicy}
use local_first_job_queue.Worker.{Settings}

pub record RetentionSpec : Type 0 where
  pub policy : PrunePolicy
  pub interval : Duration

-- The fields of a `Worker` that its options set.
pub record Config : Type 0 where
  pub kind : Text
  pub poll_interval : Duration
  pub lease_duration : Duration
  pub lease_renewal_interval : Duration
  pub concurrency : ℤ
  pub retention : Option RetentionSpec

abbrev pub WorkerOption : Type 0
WorkerOption = Config → Config

abbrev pub with_poll_interval : Duration → WorkerOption
with_poll_interval d c = record c { poll_interval = d }

abbrev pub with_lease_duration : Duration → WorkerOption
with_lease_duration d c = record c { lease_duration = d }

abbrev pub with_lease_renewal_interval : Duration → WorkerOption
with_lease_renewal_interval d c = record c { lease_renewal_interval = d }

abbrev pub with_concurrency : ℤ → WorkerOption
with_concurrency n c = record c { concurrency = n }

abbrev pub with_retention : PrunePolicy → Duration → WorkerOption
with_retention p d c = record c { retention = some (record { policy = p; interval = d }) }

abbrev pub apply_options : List WorkerOption → Config → Config
apply_options [] c = c
apply_options (o ∷ os) c = apply_options os (o c)

-- `NewWorker`
abbrev pub new_worker : Text → List WorkerOption → Config
new_worker kind opts = apply_options opts (record {
  kind = kind;
  poll_interval = pos nanos;
  lease_duration = pos (30 * nanos);
  lease_renewal_interval = pos 0;
  concurrency = pos 1;
  retention = none;
})

-- What the processing of one job reads of them.
abbrev pub settings_of : Config → Settings
settings_of c = record {
  kind = c.kind;
  lease_duration = c.lease_duration;
  lease_renewal_interval = c.lease_renewal_interval;
}

-- Where the goroutine of `Run` stands: in its loop, in `wg.Wait()`, or behind its return.
pub data Phase : Type 0 where
  looping waiting returned : Phase

-- `permits` are in the semaphore. A job's goroutine is `working` until it has put its permit back,
-- and `leaving` until `wg.Done()`. `retaining` says that the retention loop runs, and `ticking` that
-- its interval is positive, so that it goes on until the context is cancelled.
pub record Pool : Type 0 where
  pub permits : ℕ
  pub working : ℕ
  pub leaving : ℕ
  pub retaining : Bool
  pub ticking : Bool
  pub cancelled : Bool
  pub phase : Phase

abbrev pub has_retention : Option RetentionSpec → Bool
has_retention none = false
has_retention (some s) = true

-- Where the interval is not positive, the policy is applied once.
abbrev pub is_ticking : Option RetentionSpec → Bool
is_ticking none = false
is_ticking (some s) = not (leb_ℤ s.interval (pos 0))

abbrev pub filled : Bool → Bool → ℤ → Option Pool
filled retaining ticking (negsuc n) = none
filled retaining ticking (pos n) = some (record {
  permits = n;
  working = 0;
  leaving = 0;
  retaining = retaining;
  ticking = ticking;
  cancelled = false;
  phase = looping;
})

-- The pool at the loop's start. A negative concurrency is refused by `make`, with a panic.
unfoldable pub start_pool : Config → Option Pool
start_pool c = filled (has_retention c.retention) (is_ticking c.retention) c.concurrency

-- One step. Where both cases of the `select` are ready, either is taken, so that a job may still
-- start after the context is cancelled.
pub data Step : Pool → Pool → Type 0 where
  starts :
      {p : Pool}
      → p.phase ≡ looping
      → 0 < p.permits
      → Step p (record p { permits = p.permits - 1; working = suc p.working })
  gives_back :
      {p : Pool}
      → 0 < p.working
      → Step p
          (record p { permits = suc p.permits; working = p.working - 1; leaving = suc p.leaving })
  leaves : {p : Pool} → 0 < p.leaving → Step p (record p { leaving = p.leaving - 1 })
  is_cancelled : {p : Pool} → Step p (record p { cancelled = true })
  -- The loop ends with the context, and at once where its interval is not positive.
  retention_ends :
      {p : Pool}
      → (p.cancelled ≡ true) ⊎ (p.ticking ≡ false)
      → Step p (record p { retaining = false })
  stops :
      {p : Pool} → p.phase ≡ looping → p.cancelled ≡ true → Step p (record p { phase = waiting })
  returns :
      {p : Pool}
      → p.phase ≡ waiting
      → p.working + p.leaving ≡ 0
      → p.retaining ≡ false
      → Step p (record p { phase = returned })

pub data Reaches : Pool → Pool → Type 0 where
  here : {p : Pool} → Reaches p p
  then_step : {p q r : Pool} → Reaches p q → Step q r → Reaches p r
