-- ===== src/Sendtx/Budget.antt =====
-- sendtx/tx_sender.go, CreateTx: the compute budget in the header of a v1 message, and how the
-- version of the message is chosen.
pub mod Inlined
pub mod Batch
use solana_infrastructure.Base.{
  ℕ, ◌+◌, ◌*◌, ◌/◌, Bool, true, false, List, [], ◌∷◌, ◌++◌, Option, none, some, Result, ok, err,
  panic, ◌>>=◌, length, leb, if◌then◌else◌,
}
use solana_infrastructure.Base.Bytes.{Bytes, bytes_eq}
use solana_infrastructure.Wallet.Keys.{PublicKey, AccountMeta, GenericInstruction}

abbrev pub default_compute_unit_limit_per_instruction : ℕ
default_compute_unit_limit_per_instruction = 200000

abbrev pub max_compute_unit_limit : ℕ
max_compute_unit_limit = 1400000

abbrev pub max_loaded_accounts_data_size_bytes : ℕ
max_loaded_accounts_data_size_bytes = 67108864

-- What the library decodes a compute budget instruction to.
pub data ComputeBudget : Type 0 where
  set_compute_unit_limit : ℕ → ComputeBudget
  set_loaded_accounts_data_size_limit : ℕ → ComputeBudget
  other_budget : ComputeBudget

pub data BudgetError : Type 0 where
  undecodable_budget : BudgetError
  unconvertible_budget : BudgetError

-- The fields of `solana.TransactionConfig` that are set here; none is nil.
pub record TransactionConfig : Type 0 where
  pub compute_unit_limit : Option ℕ
  pub loaded_accounts_data_size_limit : Option ℕ

abbrev pub no_config : TransactionConfig
no_config = record { compute_unit_limit = none; loaded_accounts_data_size_limit = none }

unfoldable pub default_compute_unit_limit : ℕ → ℕ
default_compute_unit_limit instruction_count =
    if leb (max_compute_unit_limit / default_compute_unit_limit_per_instruction) instruction_count
    then max_compute_unit_limit
    else default_compute_unit_limit_per_instruction * instruction_count

abbrev pub or_default : Option ℕ → ℕ → ℕ
or_default none d = d
or_default (some n) d = n

-- The two limits as they stand at the end.
pub record Limits : Type 0 where
  pub compute_units : ℕ
  pub loaded_bytes : ℕ

unfoldable pub apply_budget :
    ComputeBudget → TransactionConfig → Result BudgetError TransactionConfig
apply_budget (set_compute_unit_limit units) c = ok (record c { compute_unit_limit = some units })
apply_budget (set_loaded_accounts_data_size_limit bytes) c =
    ok (record c { loaded_accounts_data_size_limit = some bytes })
apply_budget other_budget c = err unconvertible_budget

-- `budget_id` is the program's id, `decode` `computebudget.DecodeInstruction`.
module _ (budget_id : PublicKey) (decode : List AccountMeta → Bytes → Option ComputeBudget) where
  unfoldable pub fold_in :
      GenericInstruction → TransactionConfig → Result BudgetError TransactionConfig
  unfolding apply_budget
  fold_in i c = elim (decode i.accounts i.raw) [
    | none ↦ err undecodable_budget
    | some b ↦ apply_budget b c
  ]

  -- The loop, with the instructions that remain so far.
  unfoldable pub inline_loop :
      List GenericInstruction
      → List GenericInstruction
      → TransactionConfig
      → Result BudgetError (List GenericInstruction × TransactionConfig)
  inline_loop [] remaining c = ok (remaining, c)
  inline_loop (i ∷ is) remaining c = elim (bytes_eq i.program_id budget_id) [
    | false ↦ inline_loop is (remaining ++ i ∷ []) c
    | true ↦ elim (fold_in i c) [
      | ok c' ↦ inline_loop is remaining c'
      | err e ↦ err e
      | panic ↦ panic
    ]
  ]

  unfoldable pub inline_compute_budget :
      List GenericInstruction → Result BudgetError (List GenericInstruction × Limits)
  inline_compute_budget is = inline_loop is [] no_config >>= λ (remaining, c). ok (
    remaining,
    record {
      compute_units =
          or_default c.compute_unit_limit (default_compute_unit_limit (length remaining));
      loaded_bytes =
          or_default c.loaded_accounts_data_size_limit max_loaded_accounts_data_size_bytes;
    },
  )
