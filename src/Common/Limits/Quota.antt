-- ===== src/Common/Limits/Quota.antt =====
-- About newRPCMethodLimiter: the quota of a method in one window.
use native.Mathlib.Nat.{div-add-mod, mod-lt, div-eq_of_lt-le, le-div_iff_mul-le, mul-le-mul}
use solana_infrastructure.Base.{
  ℕ, zero, suc, ◌+◌, ◌-◌, ◌*◌, ◌/◌, ◌≤◌, ◌<◌, ◌≡◌, ◌↔◌, refl, none, some, ok, panic, arith,
}
use solana_infrastructure.Common.Limits.{Limiter, burst_of, new_rpc_method_limiter}

-- A division whose quotient is at least the divisor is undone by a division by the quotient.
div-div : (w s : ℕ) → 0 < s → s ≤ w / s → w / (w / s) ≡ s
div-div w s pos le =
    div-eq_of_lt-le (w / s) (omega (arith, div-add-mod w s))
      (omega (arith, div-add-mod w s, mod-lt w pos))

small_le : (w n s : ℕ) → n * n ≤ w → s ≤ n → 0 < s → s ≤ w / s
small_le w n s h le pos = (le-div_iff_mul-le pos).1 (omega (arith, mul-le-mul le le))

-- For a count from 2 up whose square is at most the window, newRPCMethodLimiter gives an interval for
-- which the burst and the tokens that come in one window are together exactly the count.
pub new_rpc_method_limiter_quota :
    (E : Type 0) (window n : ℕ)
    → 2 ≤ n
    → n * n ≤ window
    → (l : Limiter) × (interval : ℕ) × (new_rpc_method_limiter {E = E} window n ≡ ok l)
      × (l.interval ≡ some interval)
      × (0 < l.burst)
      × (l.burst + window / interval ≡ n)
unfolding new_rpc_method_limiter
new_rpc_method_limiter_quota E window zero h k = absurd (omega arith)
new_rpc_method_limiter_quota E window (suc n) h k =
    let s : ℕ = suc n - burst_of (suc n) in
    let pos : 0 < s = ground arith in
    let le : s ≤ suc n = ground arith in
    (
      record { interval = some (window / s); burst = burst_of (suc n) },
      window / s,
      ground (arith, pos),
      refl,
      ground arith,
      ground (arith, div-div window s pos (small_le window (suc n) s k le pos)),
    )

-- newRPCMethodLimiter panics exactly for a count of 1, and sets no limit exactly for a count of 0.
pub new_rpc_method_limiter_small :
    (E : Type 0) (window n : ℕ)
    → ((new_rpc_method_limiter {E = E} window n ≡ panic) ↔ (n ≡ 1))
      × (((l : Limiter) × (new_rpc_method_limiter {E = E} window n ≡ ok l) × (l.interval ≡ none))
          ↔ (n ≡ 0))
unfolding new_rpc_method_limiter
new_rpc_method_limiter_small E window zero =
    (ground arith, (λ _. refl, λ _. (record { interval = none; burst = 1 }, refl, refl)))
new_rpc_method_limiter_small E window (suc n) = (
  ground arith,
  (λ (l, e, none_set). absurd (ground (arith, e, none_set)), λ h. absurd (omega arith)),
)
