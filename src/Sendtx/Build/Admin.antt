-- ===== src/Sendtx/Build/Admin.antt =====
-- sendtx/tx_sender.go: the builders of the instructions that set the bridge up and administer it.
use solana_infrastructure.Base.{Bool, true, false, ◌&&◌, [], ◌∷◌, some, or_fail, not}
use solana_infrastructure.Base.Bytes.{Bytes, bytes_eq}
use solana_infrastructure.Wallet.Keys.{PublicKey, zero_key, GenericInstruction}
use solana_infrastructure.Sendtx.Config.{
  with_program_id, with_program_data_account, with_validator_set_pda, with_vault_pda,
  with_program_config_pda, with_fee_config_pda, with_token_registry_pda, with_metadata_pda,
  with_token_id_guard_pda,
}
use solana_infrastructure.Sendtx.Program.Admin.{
  new_initialize_instruction, new_register_lock_unlock_token_instruction,
  new_register_mint_burn_token_instruction, new_update_fee_config_instruction,
  new_update_min_bridging_amount_instruction, new_update_program_version_instruction,
}
use solana_infrastructure.Sendtx.Data.{
  ChainConfig, InitializeDto, RegisterTokenLockUnlockDto, RegisterTokenMintBurnDto,
  UpdateFeeConfigDto, UpdateProgramVersionDto, UpdateMinBridgingAmountDto, Outside,
}
use solana_infrastructure.Sendtx.Monad.{
  M, ◌>>=◌, ◌>>◌, return, lift, config, options, authority, validator, token_mint, treasury,
  encoding, require_bridge_program_id, check_address, parse_address,
}
use solana_infrastructure.Sendtx.Build.{under_program, check_key, parse_validators}

module _ (O : Outside) where
  unfoldable pub build_initialize_instruction : ChainConfig → InitializeDto → M GenericInstruction
  unfolding parse_validators
  build_initialize_instruction C tx = do
    lift (require_bridge_program_id tx.program_id)
    check_address O.solana authority tx.authority_addr true
    validators ← parse_validators O validator tx.validators
    key ← parse_address O.solana authority tx.authority_addr
    options (
        with_program_id O.solana tx.program_id
        ∷ with_program_data_account O.solana
        ∷ with_validator_set_pda O.solana
        ∷ with_vault_pda O.solana
        ∷ with_fee_config_pda O.solana
        ∷ with_program_config_pda O.solana
        ∷ [])
    c ← config
    i ← lift (
        or_fail
          (new_initialize_instruction O.encode O.own_id validators (some tx.last_id)
            C.min_operation_fee_amount C.min_fee_for_bridging key c.validator_set_pda c.vault_pda
            c.fee_config_pda c.program_config_pda C.treasury_address c.program_key
            c.program_data_key c.system_program_id)
          encoding)
    return (under_program tx.program_id i)

  unfoldable pub build_register_token_lock_unlock_instruction :
      RegisterTokenLockUnlockDto → M GenericInstruction
  build_register_token_lock_unlock_instruction tx = do
    lift (require_bridge_program_id tx.program_id)
    check_address O.solana authority tx.authority_addr true
    key ← parse_address O.solana authority tx.authority_addr
    mint ← parse_address O.solana token_mint tx.token_mint
    check_key O token_mint mint true
    options (
        with_program_id O.solana tx.program_id
        ∷ with_fee_config_pda O.solana
        ∷ with_token_registry_pda O.solana tx.token_id
        ∷ with_token_id_guard_pda O.solana tx.token_id
        ∷ [])
    c ← config
    i ← lift (
        or_fail
          (new_register_lock_unlock_token_instruction O.encode O.own_id tx.token_id
            tx.min_bridging_amount key c.fee_config_pda mint c.token_registry_pda
            c.token_id_guard_pda c.system_program_id)
          encoding)
    return (under_program tx.program_id i)

  unfoldable pub build_register_token_mint_burn_instruction :
      RegisterTokenMintBurnDto → M GenericInstruction
  build_register_token_mint_burn_instruction tx = do
    lift (require_bridge_program_id tx.program_id)
    check_address O.solana authority tx.authority_addr true
    key ← parse_address O.solana authority tx.authority_addr
    mint ← parse_address O.solana token_mint tx.token_mint
    check_key O token_mint mint true
    options (
        with_program_id O.solana tx.program_id
        ∷ with_fee_config_pda O.solana
        ∷ with_vault_pda O.solana
        ∷ with_metadata_pda O.solana mint
        ∷ with_token_registry_pda O.solana tx.token_id
        ∷ with_token_id_guard_pda O.solana tx.token_id
        ∷ [])
    c ← config
    i ← lift (
        or_fail
          (new_register_mint_burn_token_instruction O.encode O.own_id tx.token_id tx.decimals
            tx.min_bridging_amount tx.name tx.symbol tx.uri key c.fee_config_pda c.vault_pda mint
            c.metadata_pda c.token_registry_pda c.token_id_guard_pda c.token_program_id
            c.token_metadata_program_id c.system_program_id c.rent_pubkey)
          encoding)
    return (under_program tx.program_id i)

  -- The key of the new treasury, zero unless it is to be updated and named.
  unfoldable pub new_treasury : Bool → Bytes → M PublicKey
  new_treasury true address = do
    check_address O.solana treasury address true
    parse_address O.solana treasury address
  new_treasury false address = return zero_key

  unfoldable pub build_update_fee_config_instruction : UpdateFeeConfigDto → M GenericInstruction
  unfolding new_treasury
  build_update_fee_config_instruction tx = do
    lift (require_bridge_program_id tx.program_id)
    check_address O.solana authority tx.authority_addr true
    key ← parse_address O.solana authority tx.authority_addr
    new_treasury_acc ←
        new_treasury (tx.update_treasury && not (bytes_eq tx.new_treasury_address []))
          tx.new_treasury_address
    options (with_program_id O.solana tx.program_id ∷ with_fee_config_pda O.solana ∷ [])
    c ← config
    i ← lift (
        or_fail
          (new_update_fee_config_instruction O.encode O.own_id (some tx.min_operation_fee)
            (some tx.bridging_fee) (some tx.update_treasury) key c.fee_config_pda new_treasury_acc)
          encoding)
    return (under_program tx.program_id i)

  unfoldable pub build_update_program_version_instruction :
      UpdateProgramVersionDto → M GenericInstruction
  build_update_program_version_instruction tx = do
    lift (require_bridge_program_id tx.program_id)
    check_address O.solana authority tx.authority_addr true
    key ← parse_address O.solana authority tx.authority_addr
    options (with_program_id O.solana tx.program_id ∷ with_program_config_pda O.solana ∷ [])
    c ← config
    i ← lift (
        or_fail
          (new_update_program_version_instruction O.encode O.own_id tx.version_string key
            c.program_config_pda)
          encoding)
    return (under_program tx.program_id i)

  unfoldable pub build_update_min_bridging_amount_instruction :
      UpdateMinBridgingAmountDto → M GenericInstruction
  build_update_min_bridging_amount_instruction tx = do
    lift (require_bridge_program_id tx.program_id)
    check_address O.solana authority tx.authority_addr true
    key ← parse_address O.solana authority tx.authority_addr
    options (
        with_program_id O.solana tx.program_id
        ∷ with_fee_config_pda O.solana
        ∷ with_token_registry_pda O.solana tx.token_id
        ∷ [])
    c ← config
    i ← lift (
        or_fail
          (new_update_min_bridging_amount_instruction O.encode O.own_id tx.token_id
            tx.min_bridging_amount key c.fee_config_pda c.token_registry_pda)
          encoding)
    return (under_program tx.program_id i)
