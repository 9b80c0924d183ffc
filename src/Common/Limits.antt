-- ===== src/Common/Limits.antt =====
-- common/mutex_rpc_client.go: the limiter of a method, and the loop that waits out the node's
-- refusals. Times are in nanoseconds.
pub mod Quota
pub mod Backoff
use solana_infrastructure.Base.{
  ℕ, zero, suc, ◌+◌, ◌-◌, ◌*◌, ◌/◌, Bool, true, false, List, [], ◌∷◌, Option, none, some, Result,
  ok, err, panic, ltb, ◌&&◌, ◌==◌, if◌then◌else◌,
}

abbrev pub second : ℕ
second = 1000000000

abbrev pub rpc_method_limit_window : ℕ
rpc_method_limit_window = 10000000000

abbrev pub default_retry_after : ℕ
default_retry_after = 10000000000

-- `rate.NewLimiter(rate.Every(interval), burst)`: tokens come one by one, an interval apart. An
-- interval of none is not positive, for which `rate.Every` sets no limit.
pub record Limiter : Type 0 where
  pub interval : Option ℕ
  pub burst : ℕ

abbrev pub burst_of : ℕ → ℕ
burst_of count = if ltb (count / 10) 1 then 1 else count / 10

-- By `sustained`, the count less the burst: -1 for a count of 0, and a division by zero for 1.
unfoldable pub new_rpc_method_limiter : {E : Type 0} → ℕ → ℕ → Result E Limiter
new_rpc_method_limiter window zero = ok (record { interval = none; burst = burst_of 0 })
new_rpc_method_limiter window (suc n) =
    if suc n - burst_of (suc n) == 0
    then panic
    else ok
        (record { interval = some (window / (suc n - burst_of (suc n))); burst = burst_of (suc n) })

-- What the two library calls of parseRetryAfter make of a header that is not empty.
pub data Header : Type 0 where
  empty : Header
  -- `strconv.Atoi`: a positive number of seconds whose duration fits 63 bits, or one that is not
  -- positive.
  seconds : ℕ → Header
  not_positive : Header
  -- `http.ParseTime`: the time that is left, 0 if it is past.
  time_left : ℕ → Header
  unparsable : Header

unfoldable pub parse_retry_after : Header → ℕ
parse_retry_after empty = default_retry_after
parse_retry_after (seconds n) = if n == 0 then default_retry_after else n * second
parse_retry_after not_positive = default_retry_after
parse_retry_after (time_left d) = if d == 0 then default_retry_after else d
parse_retry_after unparsable = default_retry_after

-- The errors that rateLimitRetryAfter tells apart, by `errors.As`.
pub data CallError : Type 0 where
  rate_limit_error : ℕ → CallError
  rpc_error : ℕ → CallError
  http_error : ℕ → CallError
  other_error : CallError

abbrev pub status_too_many_requests : ℕ
status_too_many_requests = 429

abbrev pub by_code : ℕ → Option ℕ
by_code code = if code == status_too_many_requests then some default_retry_after else none

-- How long to back off; none if the error is not a rate limit.
unfoldable pub rate_limit_retry_after : Option CallError → Option ℕ
rate_limit_retry_after none = none
rate_limit_retry_after (some (rate_limit_error d)) = some d
rate_limit_retry_after (some (rpc_error code)) = by_code code
rate_limit_retry_after (some (http_error code)) = by_code code
rate_limit_retry_after (some other_error) = none

-- One round of the loop as the world lets it run: the time at its start, whether the context is
-- done before a cooldown is over, whether the limiter lets the call pass and how long that takes,
-- how long the call takes, its result and its error.
pub record Round (T : Type 0) : Type 0 where
  pub now : ℕ
  pub context_done : Bool
  pub limiter_passes : Bool
  pub limiter_wait : ℕ
  pub call_time : ℕ
  pub value : T
  pub error : Option CallError

pub data Outcome (T : Type 0) : Type 0 where
  returned : T → Option CallError → Outcome T
  cancelled : Outcome T
  limiter_failed : Outcome T
  -- The rounds are over before the loop is.
  still_running : Outcome T

-- What is left at the end: the outcome, the cooldown, and the calls that were made, each with the
-- times at which it was started and was over and with its error.
pub record Call : Type 0 where
  pub started : ℕ
  pub ended : ℕ
  pub failure : Option CallError

pub record Run (T : Type 0) : Type 0 where
  pub outcome : Outcome T
  pub cooldown_until : ℕ
  pub calls : List Call

-- When the wait for the cooldown is over.
abbrev pub after_cooldown : ℕ → ℕ → ℕ
after_cooldown now cooldown = if ltb now cooldown then cooldown else now

abbrev pub call_of : {T : Type 0} → Round T → ℕ → Call
call_of r cooldown = record {
  started = after_cooldown r.now cooldown + r.limiter_wait;
  ended = after_cooldown r.now cooldown + r.limiter_wait + r.call_time;
  failure = r.error;
}

abbrev pub with_call : {T : Type 0} → Call → Run T → Run T
with_call c x = record x { calls = c ∷ x.calls }

unfoldable pub with_rpc_limits : {T : Type 0} → List (Round T) → ℕ → Run T
with_rpc_limits [] cooldown = record {
  outcome = still_running;
  cooldown_until = cooldown;
  calls = [];
}
with_rpc_limits (r ∷ rounds) cooldown = elim (ltb r.now cooldown && r.context_done) [
  | true ↦ record { outcome = cancelled; cooldown_until = cooldown; calls = [] }
  | false ↦ elim r.limiter_passes [
    | false ↦ record { outcome = limiter_failed; cooldown_until = cooldown; calls = [] }
    | true ↦ elim (rate_limit_retry_after r.error) [
      | none ↦ record {
        outcome = returned r.value r.error;
        cooldown_until = cooldown;
        calls = call_of r cooldown ∷ [];
      }
      | some d ↦
          with_call (call_of r cooldown) (with_rpc_limits rounds ((call_of r cooldown).ended + d))
    ]
  ]
]
