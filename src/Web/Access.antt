-- ===== src/Web/Access.antt =====
-- Who gets an answer from a dashboard that has credentials.
use local_first_job_queue.Prelude.{
  ◌≡◌, ◌≢◌, refl, ap, true, false, ◌&&◌, Option, none, some, Text, bytes, eq_text, eq_text_iff,
  Bool-cases, inl, inr, arith,
}
use local_first_job_queue.Store.{World, Env}
use local_first_job_queue.Web.{
  BasicAuth, check, plain, Route, is_healthz, credentials_pass, require_auth, serve,
}

wrong_credentials :
    (a : BasicAuth) (given : Option (Text × Text))
    → given ≢ some (a.username, a.password)
    → credentials_pass (some a) given ≡ false
unfolding check
wrong_credentials a none n = refl
wrong_credentials a (some (user, pass)) n =
    elim (Bool-cases (eq_text user a.username && eq_text pass a.password)) [
      | inl q ↦ absurd (n (ap some (equal (ground arith) (ground arith))))
      | inr q ↦ q
    ]
  where
    equal :
        eq_text user a.username ≡ true
        → eq_text pass a.password ≡ true
        → ◌≡◌ {A = Text × Text} (user, pass) (a.username, a.password)
    equal p q = cc ((eq_text_iff user a.username).0 p, (eq_text_iff pass a.password).0 q)

-- A dashboard with credentials answers a request that does not show exactly these with status 401,
-- whatever the route but the health probe, and neither reads nor changes anything.
pub unauthorized :
    (e : Env) (a : BasicAuth) (given : Option (Text × Text)) (route : Route) (w : World)
    → is_healthz route ≡ false
    → given ≢ some (a.username, a.password)
    → serve e (some a) given route w
      ≡ (record { status = 401; body = plain (bytes "unauthorized") }, w)
unfolding serve require_auth
unauthorized e a given route w h n = rw (h, wrong_credentials a given n) refl
