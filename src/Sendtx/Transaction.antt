-- ===== src/Sendtx/Transaction.antt =====
-- sendtx/: CreateTx of tx_sender.go with the options of tx_options.go, GetProgramConfig, and the
-- addresses for a lookup table of alt.go.
pub mod History
use solana_infrastructure.Base.{
  ℕ, Bool, true, false, List, [], ◌∷◌, ◌++◌, Option, none, some, Result, ok, err, panic, or_fail,
}
use solana_infrastructure.Base.Bytes.{Bytes, bytes_eq}
use solana_infrastructure.Wallet.Keys.{PublicKey, zero_key, Solana, AccountMeta, GenericInstruction}
use solana_infrastructure.Sendtx.Program.{program_config_seed}
use solana_infrastructure.Sendtx.Config.{
  with_program_id, with_validator_set_pda, with_vault_pda, with_token_registry_pda,
}
use solana_infrastructure.Sendtx.Data.{ChainConfig, Outside}
use solana_infrastructure.Sendtx.Monad.{
  M, ◌>>=◌, ◌>>◌, return, lift, config, options, SendError, token_mint, vault, compute_budget,
  no_config_address, config_account, no_config_account, empty_config_account, undecodable_config,
  require_bridge_program_id,
}
use solana_infrastructure.Sendtx.Build.{check_key, token_account}
use solana_infrastructure.Sendtx.Instructions.{
  InstructionType, TxDto, bridge_transaction, build_instructions,
}
use solana_infrastructure.Sendtx.Budget.{ComputeBudget, Limits, inline_compute_budget}

-- The address tables of `createTxOptions`.
abbrev pub AddressTables : Type 0
AddressTables = List (PublicKey × List PublicKey)

-- `applyCreateTxOptions`: a nil option is skipped, and the last of the others counts.
unfoldable pub apply_create_tx_options : List (Option AddressTables) → AddressTables → AddressTables
apply_create_tx_options [] tables = tables
apply_create_tx_options (none ∷ opts) tables = apply_create_tx_options opts tables
apply_create_tx_options (some t ∷ opts) tables = apply_create_tx_options opts t

unfoldable pub uses_v1_message : InstructionType → Bool
uses_v1_message bridge_transaction = true
uses_v1_message _ = false

-- What the builder of solana-go is given in place of the transaction options.
pub data TxOption : Type 0 where
  legacy : TxOption
  address_tables : AddressTables → TxOption
  v1_config : Limits → TxOption

-- The instructions and the option of a transaction, by the address tables and the kind.
unfoldable pub choose_version :
    PublicKey
    → (List AccountMeta → Bytes → Option ComputeBudget)
    → AddressTables
    → Bool
    → List GenericInstruction
    → Result SendError (List GenericInstruction × TxOption)
choose_version budget_id decode (t ∷ tables) v1 is = ok (is, address_tables (t ∷ tables))
choose_version budget_id decode [] false is = ok (is, legacy)
choose_version budget_id decode [] true is = elim (inline_compute_budget budget_id decode is) [
  | ok r ↦ ok (r.0, v1_config r.1)
  | err e ↦ err compute_budget
  | panic ↦ panic
]

-- `build` is the builder of solana-go with the block hash and the payer, and the version that
-- CreateTx sets again if there are address tables.
unfoldable pub create_tx :
    {Tx : Type 0}
    → Outside
    → ChainConfig
    → PublicKey
    → (List AccountMeta → Bytes → Option ComputeBudget)
    → (List GenericInstruction → TxOption → Result SendError Tx)
    → InstructionType
    → TxDto
    → List (Option AddressTables)
    → M Tx
create_tx O C budget_id decode build kind dto opts = do
  is ← build_instructions O C kind dto
  chosen ←
      lift (
        choose_version budget_id decode (apply_create_tx_options opts []) (uses_v1_message kind) is)
  lift (build chosen.0 chosen.1)

-- `ParseAccount_ProgramConfig` after the test for empty data.
unfoldable pub parse_config :
    {Config : Type 0} → (Bytes → Option Config) → Bytes → Result SendError Config
parse_config parse [] = err empty_config_account
parse_config parse (b ∷ raw) = or_fail (parse (b ∷ raw)) undecodable_config

-- `account` is the node's answer for an address: no account or no data is `some none`.
unfoldable pub get_program_config :
    {Config : Type 0}
    → Solana
    → (PublicKey → Option (Option Bytes))
    → (Bytes → Option Config)
    → PublicKey
    → M Config
get_program_config S account parse program = do
  lift (require_bridge_program_id program)
  pda ← lift (or_fail (S.program_address (program_config_seed ∷ []) program) no_config_address)
  info ← lift (or_fail (account pda) config_account)
  raw ← lift (or_fail info no_config_account)
  lift (parse_config parse raw)

-- The three addresses of one token; the native mint has none.
unfoldable pub token_addresses : Outside → Bool → ℕ → PublicKey → M (List PublicKey)
token_addresses O true token_id mint = return []
token_addresses O false token_id mint = do
  check_key O token_mint mint true
  options (with_token_registry_pda O.solana token_id ∷ [])
  c ← config
  vault_ata ← token_account O vault c.vault_pda mint
  return (mint ∷ c.token_registry_pda ∷ vault_ata ∷ [])

-- The loop over the tokens, which come in the order of their ids.
unfoldable pub all_token_addresses : Outside → List (ℕ × PublicKey) → M (List PublicKey)
all_token_addresses O [] = return []
all_token_addresses O ((token_id, mint) ∷ tokens) = do
  here ← token_addresses O (bytes_eq mint zero_key) token_id mint
  rest ← all_token_addresses O tokens
  return (here ++ rest)

-- `sorted` puts the entries of the map into the order of `sort.Ints` on their token ids.
unfoldable pub bridge_transaction_alt_addresses :
    Outside
    → (List (ℕ × PublicKey) → List (ℕ × PublicKey))
    → PublicKey
    → List (ℕ × PublicKey)
    → M (List PublicKey)
bridge_transaction_alt_addresses O sorted program mints = do
  lift (require_bridge_program_id program)
  options (
      with_program_id O.solana program
      ∷ with_validator_set_pda O.solana
      ∷ with_vault_pda O.solana
      ∷ [])
  c ← config
  tokens ← all_token_addresses O (sorted mints)
  return (
      c.validator_set_pda ∷ c.vault_pda ∷ c.token_program_id ∷ c.system_program_id
      ∷ c.spl_associated_token_account_program_id ∷ O.solana.instructions_key ∷ tokens)
