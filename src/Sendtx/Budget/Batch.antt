-- ===== src/Sendtx/Budget/Batch.antt =====
-- About a batch: the compute budget that its transaction asks for.
use solana_infrastructure.Base.{
  ℕ, ◌≡◌, ◌⊎◌, ap, ◌∙◌, refl, Bool, true, false, List, [], ◌∷◌, Option, some, Result, ok, err,
  panic, or_fail, inl, inr, arith, ok-injective, or_fail-ok, subst,
}
use solana_infrastructure.Base.Bytes.{Bytes, bytes_eq, bytes_eq_refl}
use solana_infrastructure.Wallet.Keys.{PublicKey, AccountMeta, GenericInstruction}
use solana_infrastructure.Sendtx.Config.{InstructionConfig}
use solana_infrastructure.Sendtx.Data.{Outside, BridgeTransactionDto}
use solana_infrastructure.Sendtx.Monad.{
  M, SendError, ◌>>=◌, ◌>>◌, return, lift, bind_result, compute_budget,
}
use solana_infrastructure.Sendtx.Build.{with_compute_budget, build_bridge_transaction_instruction}
use solana_infrastructure.Sendtx.Budget.{
  ComputeBudget, set_compute_unit_limit, fold_in, inline_loop, inline_compute_budget,
  default_compute_unit_limit,
}

-- What a computation returns has a property.
record Ensures {B : Type 0} (P : B → Type 0) (m : M B) : Type 0 where
  pub holds : (c : InstructionConfig) (b : B) → (m c).1 ≡ ok b → P b

result_ensures :
    {A B : Type 0} (P : B → Type 0) (f : A → M B)
    → ((a : A) → Ensures P (f a))
    → (x : InstructionConfig × Result SendError A) (b : B) → (bind_result x.1 f x.0).1 ≡ ok b
    → P b
result_ensures P f h (c, ok a) b e = (h a).holds c b e
result_ensures P f h (c, err x) b e = absurd cc
result_ensures P f h (c, panic) b e = absurd cc

Ensures-bind :
    {A B : Type 0} (P : B → Type 0) (m : M A) (f : A → M B)
    → ((a : A) → Ensures P (f a))
    → Ensures P (m >>= f)
unfolding ◌>>=◌
Ensures-bind P m f h = record { holds = λ c b e. result_ensures P f h (m c) b e }

Ensures-then :
    {B : Type 0} (P : B → Type 0) (m : M (Unit {0})) (k : M B) → Ensures P k → Ensures P (m >> k)
Ensures-then P m k h = Ensures-bind P m (λ _. k) (λ _. h)

Ensures-lift :
    {A B : Type 0} (P : B → Type 0) (r : Result SendError A) (f : A → M B)
    → ((a : A) → r ≡ ok a → Ensures P (f a))
    → Ensures P (lift r >>= f)
unfolding ◌>>=◌ lift
Ensures-lift P (ok a) f h = record { holds = λ c b e. (h a refl).holds c b e }
Ensures-lift P (err x) f h = record { holds = λ c b e. absurd (cc) }
Ensures-lift P panic f h = record { holds = λ c b e. absurd (cc) }

Ensures-return : {B : Type 0} (P : B → Type 0) (b : B) → P b → Ensures P (return b)
unfolding return
Ensures-return P b p = record { holds = λ c x e. subst P (ok-injective e) p }

-- The instructions of a batch: perhaps one for the compute units, the signatures, the batch itself.
pub record IsBatch (O : Outside) (program : PublicKey) (is : List GenericInstruction) : Type 0 where
  pub signatures : GenericInstruction
  pub batch : GenericInstruction
  pub for_ed25519 : signatures.program_id ≡ O.ed25519_program_id
  pub for_program : batch.program_id ≡ program
  pub shape :
      (is ≡ signatures ∷ batch ∷ [])
      ⊎ ((i : GenericInstruction) × (O.set_compute_unit_limit 400000 ≡ some i)
          × (is ≡ i ∷ signatures ∷ batch ∷ []))

with_compute_budget-IsBatch :
    (O : Outside) (b : Bool) (program : PublicKey) (s t : GenericInstruction)
    → s.program_id ≡ O.ed25519_program_id
    → t.program_id ≡ program
    → Ensures (IsBatch O program) (with_compute_budget O b (s ∷ t ∷ []))
unfolding with_compute_budget
with_compute_budget-IsBatch O true program s t a b =
    Ensures-lift (IsBatch O program) (or_fail (O.set_compute_unit_limit 400000) compute_budget)
      (λ i. return (i ∷ s ∷ t ∷ []))
      (λ i e. Ensures-return (IsBatch O program) (i ∷ s ∷ t ∷ []) (record {
        signatures = s;
        batch = t;
        for_ed25519 = a;
        for_program = b;
        shape = inr (i, or_fail-ok (O.set_compute_unit_limit 400000) compute_budget i e, refl);
      }))
with_compute_budget-IsBatch O false program s t a b =
    Ensures-return (IsBatch O program) (s ∷ t ∷ [])
      (record { signatures = s; batch = t; for_ed25519 = a; for_program = b; shape = inl refl })

build_bridge_transaction_instruction-IsBatch :
    (O : Outside) (tx : BridgeTransactionDto)
    → Ensures (IsBatch O tx.program_id) (build_bridge_transaction_instruction O tx)
unfolding build_bridge_transaction_instruction
build_bridge_transaction_instruction-IsBatch O tx =
    search (Ensures-bind, Ensures-then, with_compute_budget-IsBatch) depth 40

-- What solana-go's compute budget package promises: an instruction for a limit of compute units is
-- one of the compute budget program, and is decoded to that limit.
pub record BudgetLaws (O : Outside) (budget_id : PublicKey)
    (decode : List AccountMeta → Bytes → Option ComputeBudget) : Type 0 where
  pub own_program :
      (n : ℕ) (i : GenericInstruction)
      → O.set_compute_unit_limit n ≡ some i
      → i.program_id ≡ budget_id
  pub decodes :
      (n : ℕ) (i : GenericInstruction)
      → O.set_compute_unit_limit n ≡ some i
      → decode i.accounts i.raw ≡ some (set_compute_unit_limit n)

-- The header of a batch and the instructions that stay beside it.
pub record Inlines (O : Outside) (program budget_id : PublicKey)
    (decode : List AccountMeta → Bytes → Option ComputeBudget) (is : List GenericInstruction)
    : Type 0 where
  pub signatures : GenericInstruction
  pub batch : GenericInstruction
  pub for_ed25519 : signatures.program_id ≡ O.ed25519_program_id
  pub for_program : batch.program_id ≡ program
  pub inlined :
      inline_compute_budget budget_id decode is
      ≡ ok (signatures ∷ batch ∷ [], record { compute_units = 400000; loaded_bytes = 67108864 })

by_shape :
    (O : Outside) (budget_id program : PublicKey)
    (decode : List AccountMeta → Bytes → Option ComputeBudget) (is : List GenericInstruction)
    (s t : GenericInstruction)
    → BudgetLaws O budget_id decode
    → bytes_eq s.program_id budget_id ≡ false
    → bytes_eq t.program_id budget_id ≡ false
    → ((is ≡ s ∷ t ∷ [])
        ⊎ ((i : GenericInstruction) × (O.set_compute_unit_limit 400000 ≡ some i)
            × (is ≡ i ∷ s ∷ t ∷ [])))
    → inline_compute_budget budget_id decode is
      ≡ ok (s ∷ t ∷ [], record { compute_units = 400000; loaded_bytes = 67108864 })
unfolding inline_compute_budget inline_loop default_compute_unit_limit fold_in
by_shape O budget_id program decode is s t laws x y (inl e) = ground (arith, e, x, y)
by_shape O budget_id program decode is s t laws x y (inr (i, made, e)) = ground (
  arith,
  e,
  x,
  y,
  laws.decodes 400000 i made,
  ap (λ (k : PublicKey). bytes_eq k budget_id) (laws.own_program 400000 i made),
  bytes_eq_refl budget_id,
)

inlines :
    (O : Outside) (budget_id program : PublicKey)
    (decode : List AccountMeta → Bytes → Option ComputeBudget) (is : List GenericInstruction)
    → BudgetLaws O budget_id decode
    → bytes_eq O.ed25519_program_id budget_id ≡ false
    → bytes_eq program budget_id ≡ false
    → IsBatch O program is
    → Inlines O program budget_id decode is
inlines O budget_id program decode is laws x y b = record {
  signatures = b.signatures;
  batch = b.batch;
  for_ed25519 = b.for_ed25519;
  for_program = b.for_program;
  inlined =
      by_shape O budget_id program decode is b.signatures b.batch laws
        (ap (λ (k : PublicKey). bytes_eq k budget_id) b.for_ed25519 ∙ x)
        (ap (λ (k : PublicKey). bytes_eq k budget_id) b.for_program ∙ y) b.shape;
}

-- If the compute budget program is neither the ed25519 program nor the bridge's, then the v1 message
-- of every batch keeps two instructions, the signatures and the batch, and asks for 400,000 compute
-- units and 64 MiB, for five receivers as for any other number.
pub build_bridge_transaction_instruction-Inlines :
    (O : Outside) (budget_id : PublicKey) (decode : List AccountMeta → Bytes → Option ComputeBudget)
    (tx : BridgeTransactionDto) (c : InstructionConfig) (is : List GenericInstruction)
    → BudgetLaws O budget_id decode
    → bytes_eq O.ed25519_program_id budget_id ≡ false
    → bytes_eq tx.program_id budget_id ≡ false
    → (build_bridge_transaction_instruction O tx c).1 ≡ ok is
    → Inlines O tx.program_id budget_id decode is
build_bridge_transaction_instruction-Inlines O budget_id decode tx c is laws x y e =
    inlines O budget_id tx.program_id decode is laws x y
      ((build_bridge_transaction_instruction-IsBatch O tx).holds c is e)
