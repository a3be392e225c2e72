-- ===== src/Cli/Serving.antt =====
-- internal/cli/web.go and work.go: what the flags make of the dashboard and of the worker.
use local_first_job_queue.Prelude.{
  ℕ, ◌≡◌, ◌≢◌, refl, inl, inr, Bool-cases, ℤ, List, false, ◌&&◌, ◌||◌, not, Option, none, some,
  Text, bytes, [], ◌∷◌, if◌then◌else◌, pos, ltb_ℤ, arith, some-eq,
}
use mathlib.Core.Path.{subst}
use local_first_job_queue.Clock.{Duration}
use local_first_job_queue.Models.{PrunePolicy}
use local_first_job_queue.Store.{World, Env}
use local_first_job_queue.Cli.{is_empty}
use local_first_job_queue.Web.{BasicAuth, plain, Route, is_healthz, serve}
use local_first_job_queue.Web.Access.{unauthorized}
use local_first_job_queue.Worker.{Settings, renewal_interval, third}
use local_first_job_queue.Worker.Pool.{
  Config, WorkerOption, new_worker, with_concurrency, with_lease_duration,
  with_lease_renewal_interval, with_poll_interval, with_retention, settings_of, has_retention,
}

abbrev pub given_auth : Text → Text → Option BasicAuth
given_auth [] pass = none
given_auth (c ∷ cs) pass = some (record { username = c ∷ cs; password = pass })

-- The credentials of `Web`, or nothing where only one of the two flags is set.
unfoldable pub web_auth : Text → Text → Option (Option BasicAuth)
web_auth user pass =
    if (is_empty user && not (is_empty pass)) || (is_empty pass && not (is_empty user))
    then none
    else some (given_auth user pass)

-- The credentials of the dashboard that `Work` serves.
abbrev pub work_auth : Text → Text → Option BasicAuth
work_auth = given_auth

-- `renewalDescription`
unfoldable pub renewal_description : Duration → Duration → Duration
renewal_description lease configured = if ltb_ℤ (pos 0) configured then configured else third lease

-- The policy of the worker that `Work` starts, where it is enabled.
unfoldable pub work_retention : PrunePolicy → Option PrunePolicy
work_retention p =
    if ltb_ℤ (pos 0) p.max_job_age || ltb_ℤ (pos 0) p.max_events_per_job then some p else none

-- The flags of `Work` that its worker is made of.
pub record WorkFlags : Type 0 where
  pub kind : Text
  pub concurrency : ℤ
  pub lease_duration : Duration
  pub lease_renewal : Duration
  pub poll_interval : Duration
  pub retention : PrunePolicy
  pub retention_interval : Duration

abbrev pub retention_option : Option PrunePolicy → Duration → List WorkerOption
retention_option none interval = []
retention_option (some p) interval = with_retention p interval ∷ []

-- The options in their order, that of the retention last where it is enabled.
unfoldable pub work_config : WorkFlags → Config
unfolding work_retention
work_config f = new_worker f.kind (
    with_concurrency f.concurrency
    ∷ with_lease_duration f.lease_duration
    ∷ with_lease_renewal_interval f.lease_renewal
    ∷ with_poll_interval f.poll_interval
    ∷ retention_option (work_retention f.retention) f.retention_interval)

-- The worker that `Work` starts has the values of the flags, and prunes exactly where one of the
-- two limits is positive.
pub work_config_lem :
    (f : WorkFlags)
    → ((work_config f).concurrency ≡ f.concurrency)
      × (settings_of (work_config f) ≡ record {
        kind = f.kind;
        lease_duration = f.lease_duration;
        lease_renewal_interval = f.lease_renewal;
      })
      × (has_retention (work_config f).retention
          ≡ (ltb_ℤ (pos 0) f.retention.max_job_age || ltb_ℤ (pos 0) f.retention.max_events_per_job))
unfolding work_config work_retention
work_config_lem f =
    elim (Bool-cases
      (ltb_ℤ (pos 0) f.retention.max_job_age || ltb_ℤ (pos 0) f.retention.max_events_per_job)) [
        | inl q ↦ rw q (refl, refl, refl)
        | inr q ↦ rw q (refl, refl, refl)
      ]

-- What `Work` logs as the renewal interval is the interval of the heartbeat.
renewal_description_lem :
    (s : Settings)
    → renewal_description s.lease_duration s.lease_renewal_interval ≡ renewal_interval s
unfolding renewal_description renewal_interval
renewal_description_lem s = ground arith

-- Where the command `web` accepts a password that is not empty, its dashboard refuses every request
-- but the health probe that does not show exactly the user and the password of its flags.
pub web_auth-guards :
    (e : Env) (user : Text) (c : ℕ) (cs : Text) (auth : Option BasicAuth)
    (given : Option (Text × Text)) (route : Route) (w : World)
    → web_auth user (c ∷ cs) ≡ some auth
    → is_healthz route ≡ false
    → given ≢ some (user, c ∷ cs)
    → serve e auth given route w ≡ (record { status = 401; body = plain (bytes "unauthorized") }, w)
unfolding web_auth
web_auth-guards e [] c cs auth given route w accepted h n = cc
web_auth-guards e (u ∷ us) c cs auth given route w accepted h n =
    subst
      (λ a.
        serve e a given route w ≡ (record { status = 401; body = plain (bytes "unauthorized") }, w))
      (some-eq accepted)
      (unauthorized e (record { username = u ∷ us; password = c ∷ cs }) given route w h n)
