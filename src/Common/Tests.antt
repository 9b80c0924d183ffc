-- ===== src/Common/Tests.antt =====
-- Inputs and tests of the modules of common/.
use solana_infrastructure.Base.{
  ℕ, suc, ◌≡◌, ◌+◌, ◌/◌, ◌<◌, refl, true, false, [], ◌∷◌, ◌++◌, length, Option, some, ok, arith,
}
use solana_infrastructure.Common.Limits.{
  Limiter, new_rpc_method_limiter, rpc_method_limit_window, CallError, rpc_error, other_error,
  rate_limit_retry_after, Round, returned, with_rpc_limits,
}
use solana_infrastructure.Common.Limits.Quota.{new_rpc_method_limiter_quota}
use solana_infrastructure.Common.Limits.Backoff.{
  Spaced, with_rpc_limits-Spaced, Refused, Answers, with_rpc_limits_returns,
}

new_rpc_method_limiter_quota_example :
    (l : Limiter) × (interval : ℕ) × (new_rpc_method_limiter {E = ℕ} rpc_method_limit_window 38
      ≡ ok l)
    × (l.interval ≡ some interval)
    × (0 < l.burst)
    × (l.burst + rpc_method_limit_window / interval ≡ 38)
new_rpc_method_limiter_quota_example =
    new_rpc_method_limiter_quota ℕ rpc_method_limit_window 38 (omega arith) (omega arith)

abbrev round : ℕ → Option CallError → Round ℕ
round now error = record {
  now = now;
  context_done = false;
  limiter_passes = true;
  limiter_wait = 0;
  call_time = 3;
  value = now;
  error = error;
}

abbrev too_many : Round ℕ
too_many = round 100 (some (rpc_error 429))

abbrev answered : Round ℕ
answered = round 200 (some other_error)

with_rpc_limits-Spaced_example : Spaced 150 (with_rpc_limits (too_many ∷ answered ∷ []) 150).calls
with_rpc_limits-Spaced_example = with_rpc_limits-Spaced (too_many ∷ answered ∷ []) 150

Refused-too_many : Refused too_many
unfolding rate_limit_retry_after
Refused-too_many = record { runs = refl; passes = refl; back_off = 10000000000; refusal = refl }

Answers-answered : Answers answered
unfolding rate_limit_retry_after
Answers-answered = record { runs = refl; passes = refl; answer = refl }

with_rpc_limits_returns_example :
    ((with_rpc_limits ((too_many ∷ []) ++ answered ∷ []) 150).outcome
      ≡ returned answered.value answered.error)
    × (length (with_rpc_limits ((too_many ∷ []) ++ answered ∷ []) 150).calls
        ≡ suc (length (too_many ∷ [])))
with_rpc_limits_returns_example =
    with_rpc_limits_returns (too_many ∷ []) answered [] 150 (Refused-too_many, tt) Answers-answered
