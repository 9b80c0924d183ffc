-- ===== src/Common/Limits/Backoff.antt =====
-- About withRPCLimits: when it calls, and what it returns.
use solana_infrastructure.Base.{
  ℕ, ◌+◌, ◌≤◌, ◌≡◌, refl, true, false, ◌&&◌, List, [], ◌∷◌, ◌++◌, All, length, Option, none, some,
  Bool-cases, Option-cases, inl, inr, ltb, sym, subst, suc, arith,
}
use solana_infrastructure.Common.Limits.{
  rate_limit_retry_after, Round, returned, Call, call_of, with_rpc_limits,
}

-- The calls of a run by its first round.
data RoundCalls {T : Type 0} (r : Round T) (rounds : List (Round T)) (cooldown : ℕ) : Type 0 where
  stopped : (with_rpc_limits (r ∷ rounds) cooldown).calls ≡ [] → RoundCalls r rounds cooldown
  answered :
      rate_limit_retry_after r.error ≡ none
      → (with_rpc_limits (r ∷ rounds) cooldown).calls ≡ call_of r cooldown ∷ []
      → RoundCalls r rounds cooldown
  rate_limited :
      (d : ℕ)
      → rate_limit_retry_after r.error ≡ some d
      → (with_rpc_limits (r ∷ rounds) cooldown).calls
        ≡ call_of r cooldown ∷ (with_rpc_limits rounds ((call_of r cooldown).ended + d)).calls
      → RoundCalls r rounds cooldown

no_calls : (T : Type 0) (cooldown : ℕ) → (with_rpc_limits {T = T} [] cooldown).calls ≡ []
unfolding with_rpc_limits
no_calls T cooldown = refl

round_calls :
    {T : Type 0} (r : Round T) (rounds : List (Round T)) (cooldown : ℕ)
    → RoundCalls r rounds cooldown
unfolding with_rpc_limits
round_calls r rounds cooldown = elim (Bool-cases (ltb r.now cooldown && r.context_done)) [
  | inl done ↦ stopped (ground (arith, done))
  | inr runs ↦ elim (Bool-cases r.limiter_passes) [
    | inr fails ↦ stopped (ground (arith, runs, fails))
    | inl passes ↦ elim (Option-cases (rate_limit_retry_after r.error)) [
      | inl a ↦ answered a (ground (arith, runs, passes, a))
      | inr (d, a) ↦ rate_limited d a (ground (arith, runs, passes, a))
    ]
  ]
]

-- A call starts when the cooldown is over.
starts : {T : Type 0} (r : Round T) (cooldown : ℕ) → cooldown ≤ (call_of r cooldown).started
starts r cooldown = ground arith

-- What holds of the calls after one: there is none, or they hold to the end of the back-off.
abbrev pub NextCalls : Option ℕ → ℕ → (ℕ → Type 0) → List Call → Type 0
NextCalls none ended later calls = calls ≡ []
NextCalls (some d) ended later calls = later (ended + d)

-- The first call is not made before a time, and each later one not before the back-off after the
-- one before it; after a call that was not rate limited there is none.
abbrev pub Spaced : ℕ → List Call → Type 0
Spaced earliest [] = Unit {0}
Spaced earliest (c ∷ calls) =
    (earliest ≤ c.started)
    × NextCalls (rate_limit_retry_after c.failure) c.ended (λ e. Spaced e calls) calls

-- Every call of withRPCLimits starts when the cooldown is over that it finds, and after a rate
-- limited call when the back-off is over that the error asks for; it makes no call after one that
-- was not rate limited.
pub with_rpc_limits-Spaced :
    {T : Type 0} (rounds : List (Round T)) (cooldown : ℕ)
    → Spaced cooldown (with_rpc_limits rounds cooldown).calls
with_rpc_limits-Spaced {T} [] cooldown = subst (Spaced cooldown) (sym (no_calls T cooldown)) tt
with_rpc_limits-Spaced (r ∷ rounds) cooldown = elim (round_calls r rounds cooldown) [
  | stopped e ↦ subst (Spaced cooldown) (sym e) tt
  | answered a e ↦ subst (Spaced cooldown) (sym e) (
    starts r cooldown,
    subst (λ o. NextCalls o (call_of r cooldown).ended (λ e. Spaced e []) []) (sym a) refl,
  )
  | rate_limited d a e ↦
      let later = with_rpc_limits rounds ((call_of r cooldown).ended + d) in
      subst (Spaced cooldown) (sym e) (
        starts r cooldown,
        subst (λ o. NextCalls o (call_of r cooldown).ended (λ e. Spaced e later.calls) later.calls)
            (sym a) (with_rpc_limits-Spaced rounds ((call_of r cooldown).ended + d)),
      )
]

-- The node refuses the call for its rate, and neither the context nor the limiter stops the round.
pub record Refused {T : Type 0} (r : Round T) : Type 0 where
  pub runs : r.context_done ≡ false
  pub passes : r.limiter_passes ≡ true
  pub back_off : ℕ
  pub refusal : rate_limit_retry_after r.error ≡ some back_off

-- The node answers the call, with a value or with an error that is no rate limit.
pub record Answers {T : Type 0} (r : Round T) : Type 0 where
  pub runs : r.context_done ≡ false
  pub passes : r.limiter_passes ≡ true
  pub answer : rate_limit_retry_after r.error ≡ none

-- After any number of rounds that the node refuses for their rate, withRPCLimits returns what the
-- first other round answers, value and error as they are, and has called once for each round.
pub with_rpc_limits_returns :
    {T : Type 0} (refused : List (Round T)) (r : Round T) (rest : List (Round T)) (cooldown : ℕ)
    → All Refused refused
    → Answers r
    → ((with_rpc_limits (refused ++ r ∷ rest) cooldown).outcome ≡ returned r.value r.error)
      × (length (with_rpc_limits (refused ++ r ∷ rest) cooldown).calls ≡ suc (length refused))
unfolding with_rpc_limits
with_rpc_limits_returns [] r rest cooldown h a = ground (arith, a.runs, a.passes, a.answer)
with_rpc_limits_returns (q ∷ refused) r rest cooldown (x, h) a = ground (
  arith,
  x.runs,
  x.passes,
  x.refusal,
  with_rpc_limits_returns refused r rest ((call_of q cooldown).ended + x.back_off) h a,
)
