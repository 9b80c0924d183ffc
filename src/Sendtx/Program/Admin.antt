-- ===== src/Sendtx/Program/Admin.antt =====
-- sendtx/skyline_program/instructions.go: the instructions that set the bridge up and administer it. The
-- parameters and the accounts come in the source's order.
use solana_infrastructure.Base.{ℕ, Bool, true, false, List, [], ◌∷◌, ◌++◌, Option}
use solana_infrastructure.Base.Bytes.{Bytes}
use solana_infrastructure.Wallet.Keys.{PublicKey, GenericInstruction, account_meta}
use solana_infrastructure.Sendtx.Program.{
  Value, flag, keys, text, uint16, uint64, uint8, optional, instruction, instruction_initialize,
  instruction_register_lock_unlock_token, instruction_register_mint_burn_token,
  instruction_update_fee_config, instruction_update_min_bridging_amount,
  instruction_update_program_version,
}

module _ (encode : Value → Option Bytes) (own_id : PublicKey) where
  unfoldable pub new_initialize_instruction :
      (validators : List PublicKey) (last_id : Option ℕ) (min_operational_fee : ℕ) (bridge_fee : ℕ)
      (signer validator_set vault fee_config program_config treasury program program_data
        system_program : PublicKey)
      → Option GenericInstruction
  unfolding instruction
  new_initialize_instruction validators last_id min_operational_fee bridge_fee signer validator_set
        vault fee_config program_config treasury program program_data system_program =
      instruction encode own_id instruction_initialize
        ((keys validators ∷ [])
          ++ (optional uint64 last_id
              ++ ((uint64 min_operational_fee ∷ []) ++ (uint64 bridge_fee ∷ []))))
        (account_meta signer true true
          ∷ account_meta validator_set true false
          ∷ account_meta vault true false
          ∷ account_meta fee_config true false
          ∷ account_meta program_config true false
          ∷ account_meta treasury false false
          ∷ account_meta program false false
          ∷ account_meta program_data false false
          ∷ account_meta system_program false false
          ∷ [])

  unfoldable pub new_register_lock_unlock_token_instruction :
      (token_id : ℕ) (min_bridging_amount : ℕ)
      (authority fee_config mint token_registry token_id_guard system_program : PublicKey)
      → Option GenericInstruction
  unfolding instruction
  new_register_lock_unlock_token_instruction token_id min_bridging_amount authority fee_config mint
        token_registry token_id_guard system_program =
      instruction encode own_id instruction_register_lock_unlock_token
        (uint16 token_id ∷ uint64 min_bridging_amount ∷ [])
        (account_meta authority true true
          ∷ account_meta fee_config false false
          ∷ account_meta mint false false
          ∷ account_meta token_registry true false
          ∷ account_meta token_id_guard true false
          ∷ account_meta system_program false false
          ∷ [])

  unfoldable pub new_register_mint_burn_token_instruction :
      (token_id : ℕ) (decimals : ℕ) (min_bridging_amount : ℕ) (name : Bytes) (symbol : Bytes)
      (uri : Bytes)
      (authority fee_config vault mint metadata token_registry token_id_guard token_program
        metadata_program system_program rent : PublicKey)
      → Option GenericInstruction
  unfolding instruction
  new_register_mint_burn_token_instruction token_id decimals min_bridging_amount name symbol uri
        authority fee_config vault mint metadata token_registry token_id_guard token_program
        metadata_program system_program rent =
      instruction encode own_id instruction_register_mint_burn_token
        (uint16 token_id
          ∷ uint8 decimals
          ∷ uint64 min_bridging_amount
          ∷ text name
          ∷ text symbol
          ∷ text uri
          ∷ [])
        (account_meta authority true true
          ∷ account_meta fee_config false false
          ∷ account_meta vault false false
          ∷ account_meta mint true true
          ∷ account_meta metadata true false
          ∷ account_meta token_registry true false
          ∷ account_meta token_id_guard true false
          ∷ account_meta token_program false false
          ∷ account_meta metadata_program false false
          ∷ account_meta system_program false false
          ∷ account_meta rent false false
          ∷ [])

  unfoldable pub new_update_fee_config_instruction :
      (min_operational_fee : Option ℕ) (bridge_fee : Option ℕ) (update_treasury : Option Bool)
      (authority fee_config new_treasury : PublicKey)
      → Option GenericInstruction
  unfolding instruction
  new_update_fee_config_instruction min_operational_fee bridge_fee update_treasury authority
        fee_config new_treasury =
      instruction encode own_id instruction_update_fee_config
        (optional uint64 min_operational_fee
          ++ (optional uint64 bridge_fee ++ optional flag update_treasury))
        (account_meta authority false true
          ∷ account_meta fee_config true false
          ∷ account_meta new_treasury false false
          ∷ [])

  unfoldable pub new_update_min_bridging_amount_instruction :
      (token_id : ℕ) (min_bridging_amount : ℕ) (authority fee_config token_registry : PublicKey)
      → Option GenericInstruction
  unfolding instruction
  new_update_min_bridging_amount_instruction token_id min_bridging_amount authority fee_config
        token_registry =
      instruction encode own_id instruction_update_min_bridging_amount
        (uint16 token_id ∷ uint64 min_bridging_amount ∷ [])
        (account_meta authority false true
          ∷ account_meta fee_config false false
          ∷ account_meta token_registry true false
          ∷ [])

  unfoldable pub new_update_program_version_instruction :
      (version : Bytes) (authority program_config : PublicKey) → Option GenericInstruction
  unfolding instruction
  new_update_program_version_instruction version authority program_config =
      instruction encode own_id instruction_update_program_version (text version ∷ [])
        (account_meta authority false true ∷ account_meta program_config true false ∷ [])
