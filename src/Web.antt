-- ===== src/Web.antt =====
-- internal/web/server.go: what the dashboard answers to a request.
--
-- A request arrives as the router and the decoders of net/http, strconv and encoding/json make it:
-- a route with its id, credentials, numbers, a decoded body. A response is its status and what is
-- rendered into its body; headers, templates and static files are left out.
pub mod Access
pub mod Listing
pub mod Requeueing
use local_first_job_queue.Prelude.{
  ℕ, suc, ◌+◌, Bool, true, false, ◌&&◌, ◌||◌, not, Option, none, some, List, [], ◌∷◌, map, Text,
  bytes, eq_text, leb, if◌then◌else◌, ℤ, pos, ltb_ℤ, leb_ℤ,
}
use local_first_job_queue.Clock.{Time}
use local_first_job_queue.Models.{
  Job, JobState, pending, leased, completed, dead_letter, failed, is_dead_letter, Event,
  EventTypeCount, RetentionRun, RetentionSourceCount,
}
use local_first_job_queue.Store.{World, Env, Exec, Error, no_rows, Result, ok, err, pure, ◌>>=◌}
use local_first_job_queue.Store.Rows.{get_job}
use local_first_job_queue.Store.Queries.{
  JobFilter, search_jobs, count_jobs, get_queue_stats, get_job_events, get_retention_stats,
  recent_retention_runs,
}
use local_first_job_queue.Store.Counts.{get_event_type_counts}
use local_first_job_queue.Store.Listings.{get_kinds}
use local_first_job_queue.Queue.{RequeueConfig, requeue}
use local_first_job_queue.Queue.Options.{requeue_with_max_attempts, requeue_with_payload}

-- `basicAuth`
pub record BasicAuth : Type 0 where
  pub username : Text
  pub password : Text

-- `check`: `subtle.ConstantTimeCompare` gives 1 for equal bytes.
unfoldable pub check : Option BasicAuth → Text → Text → Bool
check none user pass = true
check (some a) user pass = eq_text user a.username && eq_text pass a.password

pub record RetentionSummary : Type 0 where
  pub runs : ℕ
  pub jobs_removed : ℕ
  pub events_removed : ℕ
  pub last_run_at : Option Time
  pub recent_runs : List RetentionRun

pub record Summary : Type 0 where
  pub states : List (JobState × ℕ)
  pub kinds : List Text
  pub events_total : ℕ
  pub retention : RetentionSummary

-- What a response carries.
pub data Body : Type 0 where
  plain error_json : Text → Body
  index_page summary_json : Summary → Body
  job_page job_json : Job → List Event → Body
  jobs_json : List Job → ℕ → ℤ → ℤ → Body
  requeued_json : Job → Body
  static_file : Body

pub record Response : Type 0 where
  pub status : ℕ
  pub body : Body

abbrev pub Handler : Type 0
Handler = World → Response × World

abbrev pub respond : ℕ → Body → Handler
respond status body w = (record { status = status; body = body }, w)

-- `internalError`
abbrev pub internal_error : Handler
internal_error = respond 500 (plain (bytes "internal error"))

-- `http.NotFound`
abbrev pub not_found_page : Handler
not_found_page = respond 404 (plain (bytes "404 page not found"))

abbrev pub answer_result : {A : Type 0} → (Error → Handler) → (A → Handler) → Result A → Handler
answer_result fails succeeds (ok a) = succeeds a
answer_result fails succeeds (err x) = fails x

-- A read of the store, and a response for each way that it ends.
unfoldable pub answer : {A : Type 0} → Exec A → (Error → Handler) → (A → Handler) → Handler
answer m fails succeeds w = let (r, v) = m w in answer_result fails succeeds r v

-- `orderedStates`
abbrev pub ordered_states : List JobState
ordered_states = pending ∷ leased ∷ completed ∷ dead_letter ∷ failed ∷ []

unfoldable pub add_counts : List EventTypeCount → ℕ
add_counts [] = 0
add_counts (c ∷ cs) = c.total + add_counts cs

add_retention : List RetentionSourceCount → RetentionSummary → RetentionSummary
add_retention [] r = r
add_retention (c ∷ cs) r = add_retention cs (record r {
  runs = r.runs + c.runs;
  jobs_removed = r.jobs_removed + c.jobs_removed;
  events_removed = r.events_removed + c.events_removed;
})

first_started : List RetentionRun → Option Time
first_started [] = none
first_started (r ∷ rs) = some r.started_at

-- `buildSummary`
unfoldable pub build_summary : Env → Exec Summary
unfolding add_counts add_retention first_started
build_summary e = do
  stats ← get_queue_stats e
  kinds ← get_kinds e
  events ← get_event_type_counts e
  retention ← get_retention_stats e
  recent ← recent_retention_runs e (pos 5)
  pure (record {
    states = map (λ s. (s, stats s)) ordered_states;
    kinds = kinds;
    events_total = add_counts events;
    retention = add_retention retention (record {
      runs = 0;
      jobs_removed = 0;
      events_removed = 0;
      last_run_at = first_started recent;
      recent_runs = recent;
    });
  })

-- `handleIndex`, at a path that is `/` or not.
unfoldable pub handle_index : Env → Bool → Handler
unfolding build_summary answer
handle_index e false = not_found_page
handle_index e true =
    answer (build_summary e) (λ x. internal_error) (λ s. respond 200 (index_page s))

-- `handleAPISummary`
unfoldable pub handle_api_summary : Env → Handler
unfolding build_summary answer
handle_api_summary e =
    answer (build_summary e) (λ x. internal_error) (λ s. respond 200 (summary_json s))

-- The error of a read of one job: `sql.ErrNoRows`, or any other.
abbrev pub no_job : Handler → Error → Handler
no_job missing no_rows = missing
no_job missing _ = internal_error

abbrev pub missing_json : Handler
missing_json = respond 404 (error_json (bytes "job not found"))

unfoldable pub job_with_events : Env → Text → Handler → (Job → List Event → Body) → Handler
unfolding answer
job_with_events e id missing body =
    answer (get_job e id) (no_job missing)
      λ j. answer (get_job_events e id) (λ x. internal_error) λ events. respond 200 (body j events)

-- `handleJob`
unfoldable pub handle_job : Env → Text → Handler
unfolding job_with_events
handle_job e id = job_with_events e id not_found_page job_page

-- `handleAPIJob`
unfoldable pub handle_api_job : Env → Text → Handler
unfolding job_with_events
handle_api_job e id = job_with_events e id missing_json job_json

-- The query of `/api/jobs`. A number is what `strconv.Atoi` makes of its text: `none` where the
-- parameter is absent or not a number.
pub record JobsQuery : Type 0 where
  pub state : Option JobState
  pub kind : Text
  pub q : Text
  pub limit : Option ℤ
  pub offset : Option ℤ

abbrev pub page_limit : Option ℤ → ℤ
page_limit none = pos 200
page_limit (some n) = if ltb_ℤ (pos 0) n && leb_ℤ n (pos 1000) then n else pos 200

abbrev pub page_offset : Option ℤ → ℤ
page_offset none = pos 0
page_offset (some n) = if ltb_ℤ (pos 0) n then n else pos 0

abbrev pub filter_of : JobsQuery → JobFilter
filter_of r = record {
  state = r.state;
  kind = r.kind;
  query = r.q;
  limit = page_limit r.limit;
  offset = page_offset r.offset;
}

-- `handleAPIJobs`
unfoldable pub handle_api_jobs : Env → JobsQuery → Handler
unfolding answer
handle_api_jobs e r =
    answer (search_jobs e (filter_of r)) (λ x. internal_error)
      λ jobs.
        answer (count_jobs e (filter_of r)) (λ x. internal_error)
          λ total. respond 200 (jobs_json jobs total (page_limit r.limit) (page_offset r.offset))

-- What the JSON decoder makes of the body of a requeue request: an error, an object with something
-- behind it, or one object. An empty body is an object without fields.
pub data RequeueBody : Type 0 where
  malformed not_alone : RequeueBody
  alone : Option ℤ → Option Text → RequeueBody

abbrev pub bad_request : Text → Handler
bad_request message = respond 400 (error_json message)

abbrev pub not_dead_lettered_json : Handler
not_dead_lettered_json = respond 409 (error_json (bytes "job is not dead-lettered"))

unfoldable pub with_budget : Option ℤ → RequeueConfig → RequeueConfig
unfolding requeue_with_max_attempts
with_budget none c = c
with_budget (some m) c = requeue_with_max_attempts m c

unfoldable pub with_payload : Option Text → RequeueConfig → RequeueConfig
unfolding requeue_with_payload
with_payload none c = c
with_payload (some t) c = requeue_with_payload t c

unfoldable pub requeue_config : Option ℤ → Option Text → RequeueConfig
unfolding with_budget with_payload
requeue_config n p =
    with_payload p (with_budget n (record { max_attempts = pos 0; payload = none }))

-- The response after `Requeue` failed, from a second read of the job.
unfoldable pub explain_failure : Env → Text → Handler
unfolding answer
explain_failure e id =
    answer (get_job e id) (no_job missing_json)
      λ j. if not (is_dead_letter j.state) then not_dead_lettered_json else internal_error

unfoldable pub requeue_found : Env → Text → RequeueConfig → Job → Handler
unfolding answer explain_failure
requeue_found e id cfg j =
    if not (is_dead_letter j.state)
    then not_dead_lettered_json
    else answer (requeue e id cfg) (λ x. explain_failure e id)
        λ updated. respond 200 (requeued_json updated)

abbrev pub below_one : Option ℤ → Bool
below_one none = false
below_one (some n) = ltb_ℤ n (pos 1)

unfoldable pub requeue_request : Env → Text → RequeueBody → Handler
unfolding answer requeue_found requeue_config
requeue_request e id malformed = bad_request (bytes "invalid requeue request")
requeue_request e id not_alone = bad_request (bytes "request must contain one JSON object")
requeue_request e id (alone n p) =
    if below_one n
    then bad_request (bytes "max_attempts must be at least 1")
    else answer (get_job e id) (no_job missing_json) (requeue_found e id (requeue_config n p))

-- `handleAPIRequeue`, with whether the content type starts with `application/json`.
unfoldable pub handle_api_requeue : Env → Bool → Text → RequeueBody → Handler
unfolding requeue_request
handle_api_requeue e false id b =
    respond 415 (error_json (bytes "content type must be application/json"))
handle_api_requeue e true id b = requeue_request e id b

-- The routes of `Handler`.
pub data Route : Type 0 where
  -- Any GET path that no other route takes: `/` itself, or not.
  index : Bool → Route
  job : Text → Route
  api_summary : Route
  api_jobs : JobsQuery → Route
  api_job : Text → Route
  api_requeue : Bool → Text → RequeueBody → Route
  healthz : Route
  -- A method that no route takes for its path, with whether the path is `/healthz`.
  other_method : Bool → Route
  -- The status that the file server gives.
  static : ℕ → Route

unfoldable pub dispatch : Env → Route → Handler
unfolding handle_index handle_job handle_api_summary handle_api_jobs handle_api_job
    handle_api_requeue
dispatch e (index at_root) = handle_index e at_root
dispatch e (job id) = handle_job e id
dispatch e api_summary = handle_api_summary e
dispatch e (api_jobs q) = handle_api_jobs e q
dispatch e (api_job id) = handle_api_job e id
dispatch e (api_requeue is_json id b) = handle_api_requeue e is_json id b
dispatch e healthz = respond 200 (plain (bytes "ok"))
dispatch e (other_method on_healthz) = respond 405 (plain (bytes "Method Not Allowed"))
dispatch e (static status) = respond status static_file

-- `r.URL.Path == "/healthz"`, by whatever method.
abbrev pub is_healthz : Route → Bool
is_healthz healthz = true
is_healthz (other_method on_healthz) = on_healthz
is_healthz _ = false

-- The credentials of a request, where it has any.
abbrev pub credentials_pass : Option BasicAuth → Option (Text × Text) → Bool
credentials_pass auth none = false
credentials_pass auth (some (user, pass)) = check auth user pass

-- `requireAuth`
unfoldable pub require_auth : Option BasicAuth → Option (Text × Text) → Route → Handler → Handler
unfolding check
require_auth auth given route next =
    if is_healthz route
    then next
    else if not (credentials_pass auth given)
    then respond 401 (plain (bytes "unauthorized"))
    else next

-- `Handler`: a server without credentials has no check at all.
unfoldable pub serve : Env → Option BasicAuth → Option (Text × Text) → Route → Handler
unfolding dispatch require_auth
serve e none given route = dispatch e route
serve e (some a) given route = require_auth (some a) given route (dispatch e route)
