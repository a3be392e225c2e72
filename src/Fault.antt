-- ===== src/Fault.antt =====
-- internal/fault/fault.go: the injector that wraps a worker's handler.
--
-- A handler returns an error or nothing, or panics. Its context is a parameter: whether it ends
-- during the injected delay, and the error that it ends with.
pub mod Attempts
use local_first_job_queue.Prelude.{
  ℕ, ◌+◌, ◌*◌, ◌&&◌, Bool, true, false, Option, none, some, List, [], ◌∷◌, Text, if◌then◌else◌, ℤ,
  pos, negsuc, ◌+ℤ◌, leb_ℤ, ltb_ℤ,
}
use local_first_job_queue.Clock.{Duration}
use local_first_job_queue.Models.{Job}

pub data Mode : Type 0 where
  mode_none mode_error mode_panic mode_slow mode_stall : Mode
  other_mode : Text → Mode

pub record Policy : Type 0 where
  pub mode : Mode
  pub fail_until_attempt : ℤ
  pub delay : Duration
  pub message : Text

-- The errors and the values of panics, by where they come from. An injected error with an empty
-- message is the one whose text names the attempt.
pub data Failure : Type 0 where
  context_ended : Failure
  injected_error injected_panic : ℤ → Text → Failure
  handler_error : Text → Failure
  recovered_panic handler_panic : Failure → Failure

-- How a handler ends: by returning nil, by returning an error, or by a panic.
pub data Outcome : Type 0 where
  returns_nil : Outcome
  returns_error panics : Failure → Outcome

-- What a JSON payload's field `fault` holds.
pub record FaultSpec : Type 0 where
  pub mode : Option Mode
  pub fail_until_attempt : ℤ
  pub delay_ms : ℤ
  pub message : Text

abbrev pub no_fault : Policy
no_fault = record { mode = mode_none; fail_until_attempt = pos 0; delay = pos 0; message = [] }

abbrev pub millisecond : ℤ → Duration
millisecond (pos n) = pos (n * 1000000)
millisecond (negsuc n) = negsuc (n * 1000000 + 999999)

spec_policy : Option Mode → FaultSpec → Policy
spec_policy none s = no_fault
spec_policy (some m) s = record {
  mode = m;
  fail_until_attempt = s.fail_until_attempt;
  delay = millisecond s.delay_ms;
  message = s.message;
}

-- `FromPayload`, of what the JSON decoder makes of the payload: `none` where it reports an error. A
-- mode of `none` is the empty string, which an absent field leaves.
unfoldable pub from_payload : Option FaultSpec → Policy
unfolding spec_policy
from_payload none = no_fault
from_payload (some s) = spec_policy s.mode s

-- The switch over the mode. `stall` returns the context's error.
unfoldable pub inject_mode : Mode → Policy → ℤ → Outcome → Outcome
inject_mode mode_stall p n inner = returns_error context_ended
inject_mode mode_slow p n inner = returns_error context_ended
inject_mode mode_panic p n inner =
    if leb_ℤ n p.fail_until_attempt then panics (injected_panic n p.message) else inner
inject_mode mode_error p n inner =
    if leb_ℤ n p.fail_until_attempt then returns_error (injected_error n p.message) else inner
inject_mode mode_none p n inner = inner
inject_mode (other_mode s) p n inner = inner

-- The deferred `recover`
abbrev pub recover_panic : Outcome → Outcome
recover_panic returns_nil = returns_nil
recover_panic (returns_error x) = returns_error x
recover_panic (panics x) = returns_error (recovered_panic x)

-- `Handle`: `ended` says whether the context ends before the delay has passed, `inner` how the
-- wrapped handler would end.
unfoldable pub handle : (Job → Policy) → Bool → (Job → Outcome) → Job → Outcome
unfolding inject_mode
handle policy ended inner j =
    let p = policy j in
    if ltb_ℤ (pos 0) p.delay && ended
    then returns_error context_ended
    else recover_panic (inject_mode p.mode p (j.retry_count +ℤ pos 1) (inner j))
