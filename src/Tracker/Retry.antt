-- ===== src/Tracker/Retry.antt =====
-- tracker/helpers.go: `ExecuteWithRetry`.
pub mod Outcome
use solana_infrastructure.Base.{ℕ, zero, suc, Bool, true, false, Option, none, some, if◌then◌else◌}

-- `E` is the error type of the handler.
pub data RetryError (E : Type 0) : Type 0 where
  timeout : RetryError E
  cancelled : RetryError E
  failed : E → RetryError E

module _ {T E : Type 0} (is_retryable : E → Bool) (handler : ℕ → T × Option E)
    (done : ℕ → Bool) where
  -- What follows a call of the handler; `again` is the loop's next round. The context is looked at
  -- only after a failed call.
  abbrev after_call : T → Option E → Bool → T × Option (RetryError E) → T × Option (RetryError E)
  after_call result none stop again = (result, none)
  after_call result (some e) stop again =
      if is_retryable e
      then if stop then (result, some cancelled) else again
      else (result, some (failed e))

  -- The rounds left, the number of the round, and the result of the round before.
  retry_loop : ℕ → ℕ → T → T × Option (RetryError E)
  retry_loop zero count result = (result, some timeout)
  retry_loop (suc left) count result =
      let again = retry_loop left (suc count) (handler count).0 in
      after_call (handler count).0 (handler count).1 (done count) again

  -- `handler count` is what the handler returns in round `count`, and `done count` says whether the
  -- context ends before the wait after that round does.
  unfoldable pub execute_with_retry : ℕ → T → T × Option (RetryError E)
  unfolding retry_loop
  execute_with_retry retry_count zero_value = retry_loop retry_count 0 zero_value
