-- ===== src/Tracker/Retry/Outcome.antt =====
-- What the outcome of `ExecuteWithRetry` says of the handler's calls.
use native.Mathlib.Decide.{ℕ_discrete}
use solana_infrastructure.Base.{
  ℕ, zero, suc, ◌+◌, ◌<◌, ◌≤◌, ◌≡◌, refl, Bool, true, false, not, ◌&&◌, Option, none, some,
  if◌then◌else◌, arith,
}
use solana_infrastructure.Tracker.Retry.{
  RetryError, timeout, cancelled, failed, retry_loop, execute_with_retry,
}

module _ {T E : Type 0} (is_retryable : E → Bool) (handler : ℕ → T × Option E)
    (done : ℕ → Bool) where
  -- After round `k` another one is made: it failed in a way that is tried again, and the wait after
  -- it was not cut short.
  abbrev retried_after : Option E → Bool → Bool
  retried_after none stop = false
  retried_after (some e) stop = is_retryable e && not stop

  abbrev pub goes_on : ℕ → Bool
  goes_on k = retried_after (handler k).1 (done k)

  -- The error of a round after which no other is made.
  abbrev last_error : Option E → Option (RetryError E)
  last_error none = none
  last_error (some e) = if is_retryable e then some cancelled else some (failed e)

  abbrev pub ends_with : ℕ → T × Option (RetryError E)
  ends_with k = ((handler k).0, last_error (handler k).1)

  loop_ends :
      (left count k : ℕ) (result : T)
      → count ≤ k
      → k < count + left
      → ((j : ℕ) → count ≤ j → j < k → goes_on j ≡ true)
      → goes_on k ≡ false
      → retry_loop is_retryable handler done left count result ≡ ends_with k
  unfolding retry_loop
  loop_ends zero count k result le lt before now = absurd (omega arith)
  loop_ends (suc left) count k result le lt before now = elim (ℕ_discrete k count) [
    | yes here ↦ ground (arith, here, now)
    | no later ↦ ground (
      arith,
      before count (omega arith) (omega arith),
      loop_ends left (suc count) k (handler count).0 (omega arith) (omega arith)
          (λ j lo hi. before j (omega arith) hi) now,
    )
  ]

  loop_times_out :
      (left count : ℕ) (result : T)
      → ((j : ℕ) → count ≤ j → j < count + left → goes_on j ≡ true)
      → (retry_loop is_retryable handler done left count result).1 ≡ some timeout
  unfolding retry_loop
  loop_times_out zero count result h = refl
  loop_times_out (suc left) count result h = ground (
    arith,
    h count (omega arith) (omega arith),
    loop_times_out left (suc count) (handler count).0 (λ j lo hi. h j (omega arith) (omega arith)),
  )

  -- If round `k` is the first that does not go on to another one, `ExecuteWithRetry` ends with it:
  -- with its value if the call succeeded, with the error if that is not to be tried again, and with
  -- the context's error if the wait was cut short.
  pub execute_with_retry_ends :
      (n k : ℕ) (zero_value : T)
      → k < n
      → ((j : ℕ) → j < k → goes_on j ≡ true)
      → goes_on k ≡ false
      → execute_with_retry is_retryable handler done n zero_value ≡ ends_with k
  unfolding execute_with_retry
  execute_with_retry_ends n k zero_value lt before now =
      loop_ends n 0 k zero_value (omega arith) (omega arith) (λ j lo hi. before j hi) now

  -- If every round goes on to another one, `ExecuteWithRetry` ends with the timeout error.
  pub execute_with_retry_times_out :
      (n : ℕ) (zero_value : T)
      → ((j : ℕ) → j < n → goes_on j ≡ true)
      → (execute_with_retry is_retryable handler done n zero_value).1 ≡ some timeout
  unfolding execute_with_retry
  execute_with_retry_times_out n zero_value h =
      loop_times_out n 0 zero_value (λ j lo hi. h j (omega arith))
