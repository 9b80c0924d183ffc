-- ===== src/Sendtx/Instructions/Builders.antt =====
-- The builders of sendtx/tx_sender.go, each as a step that keeps the library's program ids.
use solana_infrastructure.Base.{ℕ, Bool, true, false, List, [], ◌∷◌}
use solana_infrastructure.Base.Bytes.{Bytes, bytes_eq}
use solana_infrastructure.Wallet.Keys.{PublicKey, GenericInstruction, zero_key}
use solana_infrastructure.Sendtx.Data.{
  ChainConfig, Outside, SolTransferDto, SplTransferDto, CreateInstructionDto, BridgeRequestDto,
  BridgeVsuDto, HotWalletIncrementDto, InitializeDto, RegisterTokenLockUnlockDto,
  RegisterTokenMintBurnDto, UpdateFeeConfigDto, UpdateProgramVersionDto, UpdateMinBridgingAmountDto,
  BridgeTransactionDto,
}
use solana_infrastructure.Sendtx.Monad.{M, Role}
use solana_infrastructure.Sendtx.Build.{
  with_compute_budget, check_mint_unless, parse_validators, build_bridging_request_instruction,
  build_bridge_transaction_instruction, build_bridge_vsu_instruction,
  build_hot_wallet_increment_instruction,
}
use solana_infrastructure.Sendtx.Build.Admin.{
  new_treasury, build_initialize_instruction, build_register_token_lock_unlock_instruction,
  build_register_token_mint_burn_instruction, build_update_fee_config_instruction,
  build_update_program_version_instruction, build_update_min_bridging_amount_instruction,
}
use solana_infrastructure.Sendtx.Build.Transfers.{
  build_transfer_instruction, build_spl_transfer_instruction, build_create_instruction,
}
use solana_infrastructure.Sendtx.Instructions.{
  InstructionType, TxDto, other_type, bridge_transaction, bridge_transaction_dto, sol_transfer,
  sol_transfer_dto, spl_transfer, spl_transfer_dto, create_instruction, create_instruction_dto,
  bridging_request, bridging_request_dto, bridge_vsu, bridge_vsu_dto, hot_wallet_increment,
  hot_wallet_increment_dto, initialize, initialize_dto, register_tokens_lock_unlock,
  register_tokens_lock_unlock_dto, register_tokens_mint_burn, register_tokens_mint_burn_dto,
  update_fee_config, update_fee_config_dto, update_program_version, update_program_version_dto,
  update_min_bridging_amount, update_min_bridging_amount_dto, alone, build_instructions,
}
use solana_infrastructure.Sendtx.Transaction.{
  token_addresses, all_token_addresses, bridge_transaction_alt_addresses,
}
use solana_infrastructure.Sendtx.Instructions.Kept.{
  Keeps, Keeps-lift, Keeps-return, Keeps-config, Keeps-demand, Keeps-bind, Keeps-options_none,
  Keeps-options, with_program_id-kept, with_program_data_account-kept, with_validator_set_pda-kept,
  with_vault_pda-kept, with_program_config_pda-kept, with_fee_config_pda-kept,
  with_event_authority_pda-kept, with_token_registry_pda-kept, with_token_id_guard_pda-kept,
  with_metadata_pda-kept,
}

module _ (O : Outside) where
  ruleset steps = (
    Keeps-lift, Keeps-return, Keeps-config, Keeps-demand, Keeps-bind, Keeps-options_none,
    Keeps-options, with_program_id-kept, with_program_data_account-kept,
    with_validator_set_pda-kept, with_vault_pda-kept, with_program_config_pda-kept,
    with_fee_config_pda-kept, with_event_authority_pda-kept, with_token_registry_pda-kept,
    with_token_id_guard_pda-kept, with_metadata_pda-kept,
  )

  with_compute_budget-Keeps :
      (b : Bool) (is : List GenericInstruction) → Keeps (with_compute_budget O b is)
  unfolding with_compute_budget
  with_compute_budget-Keeps true is = search steps depth 10
  with_compute_budget-Keeps false is = search steps depth 10

  check_mint_unless-Keeps : (b : Bool) (mint : PublicKey) → Keeps (check_mint_unless O b mint)
  unfolding check_mint_unless
  check_mint_unless-Keeps true mint = search steps depth 10
  check_mint_unless-Keeps false mint = search steps depth 10

  new_treasury-Keeps : (b : Bool) (address : Bytes) → Keeps (new_treasury O b address)
  unfolding new_treasury
  new_treasury-Keeps true address = search steps depth 10
  new_treasury-Keeps false address = search steps depth 10

  parse_validators-Keeps :
      (role : Role) (addresses : List Bytes) → Keeps (parse_validators O role addresses)
  unfolding parse_validators
  parse_validators-Keeps role [] = search steps depth 10
  parse_validators-Keeps role (a ∷ addresses) = Keeps-bind _ _ (Keeps-lift _) λ _.
      Keeps-bind _ _ (Keeps-lift _)
        λ key. Keeps-bind _ _ (parse_validators-Keeps role addresses) λ rest. Keeps-return _

  token_addresses-Keeps :
      (b : Bool) (id : ℕ) (mint : PublicKey) → Keeps (token_addresses O b id mint)
  unfolding token_addresses
  token_addresses-Keeps true id mint = search steps depth 20
  token_addresses-Keeps false id mint = search steps depth 20

  all_token_addresses-Keeps : (tokens : List (ℕ × PublicKey)) → Keeps (all_token_addresses O tokens)
  unfolding all_token_addresses
  all_token_addresses-Keeps [] = search steps depth 10
  all_token_addresses-Keeps ((id, mint) ∷ tokens) =
      Keeps-bind _ _ (token_addresses-Keeps (bytes_eq mint zero_key) id mint)
        λ here. Keeps-bind _ _ (all_token_addresses-Keeps tokens) λ rest. Keeps-return _

  pub bridge_transaction_alt_addresses-Keeps :
      (sorted : List (ℕ × PublicKey) → List (ℕ × PublicKey)) (program : PublicKey)
      (mints : List (ℕ × PublicKey))
      → Keeps (bridge_transaction_alt_addresses O sorted program mints)
  unfolding bridge_transaction_alt_addresses
  bridge_transaction_alt_addresses-Keeps sorted program mints =
      search (steps, all_token_addresses-Keeps) depth 40

  ruleset builders = (
    steps, with_compute_budget-Keeps, check_mint_unless-Keeps, new_treasury-Keeps,
    parse_validators-Keeps,
  )

  build_transfer_instruction-Keeps : (tx : SolTransferDto) → Keeps (build_transfer_instruction O tx)
  unfolding build_transfer_instruction
  build_transfer_instruction-Keeps tx = search builders depth 60

  build_spl_transfer_instruction-Keeps :
      (tx : SplTransferDto) → Keeps (build_spl_transfer_instruction O tx)
  unfolding build_spl_transfer_instruction
  build_spl_transfer_instruction-Keeps tx = search builders depth 60

  build_create_instruction-Keeps :
      (tx : CreateInstructionDto) → Keeps (build_create_instruction O tx)
  unfolding build_create_instruction
  build_create_instruction-Keeps tx = search builders depth 60

  build_bridging_request_instruction-Keeps :
      (C : ChainConfig) (tx : BridgeRequestDto) → Keeps (build_bridging_request_instruction O C tx)
  unfolding build_bridging_request_instruction
  build_bridging_request_instruction-Keeps C tx = search builders depth 60

  build_bridge_vsu_instruction-Keeps :
      (tx : BridgeVsuDto) → Keeps (build_bridge_vsu_instruction O tx)
  unfolding build_bridge_vsu_instruction
  build_bridge_vsu_instruction-Keeps tx = search builders depth 60

  build_hot_wallet_increment_instruction-Keeps :
      (tx : HotWalletIncrementDto) → Keeps (build_hot_wallet_increment_instruction O tx)
  unfolding build_hot_wallet_increment_instruction
  build_hot_wallet_increment_instruction-Keeps tx = search builders depth 60

  build_initialize_instruction-Keeps :
      (C : ChainConfig) (tx : InitializeDto) → Keeps (build_initialize_instruction O C tx)
  unfolding build_initialize_instruction
  build_initialize_instruction-Keeps C tx = search builders depth 60

  build_register_token_lock_unlock_instruction-Keeps :
      (tx : RegisterTokenLockUnlockDto) → Keeps (build_register_token_lock_unlock_instruction O tx)
  unfolding build_register_token_lock_unlock_instruction
  build_register_token_lock_unlock_instruction-Keeps tx = search builders depth 60

  build_register_token_mint_burn_instruction-Keeps :
      (tx : RegisterTokenMintBurnDto) → Keeps (build_register_token_mint_burn_instruction O tx)
  unfolding build_register_token_mint_burn_instruction
  build_register_token_mint_burn_instruction-Keeps tx = search builders depth 60

  build_update_fee_config_instruction-Keeps :
      (tx : UpdateFeeConfigDto) → Keeps (build_update_fee_config_instruction O tx)
  unfolding build_update_fee_config_instruction
  build_update_fee_config_instruction-Keeps tx = search builders depth 60

  build_update_program_version_instruction-Keeps :
      (tx : UpdateProgramVersionDto) → Keeps (build_update_program_version_instruction O tx)
  unfolding build_update_program_version_instruction
  build_update_program_version_instruction-Keeps tx = search builders depth 60

  build_update_min_bridging_amount_instruction-Keeps :
      (tx : UpdateMinBridgingAmountDto) → Keeps (build_update_min_bridging_amount_instruction O tx)
  unfolding build_update_min_bridging_amount_instruction
  build_update_min_bridging_amount_instruction-Keeps tx = search builders depth 60

  build_bridge_transaction_instruction-Keeps :
      (tx : BridgeTransactionDto) → Keeps (build_bridge_transaction_instruction O tx)
  unfolding build_bridge_transaction_instruction
  build_bridge_transaction_instruction-Keeps tx = search builders depth 60

  alone-Keeps : (m : M GenericInstruction) → Keeps m → Keeps (alone m)
  alone-Keeps m h = Keeps-bind m _ h (λ i. Keeps-return (i ∷ []))

  pub build_instructions-Keeps :
      (C : ChainConfig) (kind : InstructionType) (dto : TxDto)
      → Keeps (build_instructions O C kind dto)
  unfolding build_instructions
  build_instructions-Keeps C sol_transfer (sol_transfer_dto tx) =
      alone-Keeps _ (build_transfer_instruction-Keeps tx)
  build_instructions-Keeps C spl_transfer (spl_transfer_dto tx) =
      alone-Keeps _ (build_spl_transfer_instruction-Keeps tx)
  build_instructions-Keeps C create_instruction (create_instruction_dto tx) =
      alone-Keeps _ (build_create_instruction-Keeps tx)
  build_instructions-Keeps C bridging_request (bridging_request_dto tx) =
      alone-Keeps _ (build_bridging_request_instruction-Keeps C tx)
  build_instructions-Keeps C bridge_vsu (bridge_vsu_dto tx) =
      alone-Keeps _ (build_bridge_vsu_instruction-Keeps tx)
  build_instructions-Keeps C hot_wallet_increment (hot_wallet_increment_dto tx) =
      alone-Keeps _ (build_hot_wallet_increment_instruction-Keeps tx)
  build_instructions-Keeps C initialize (initialize_dto tx) =
      alone-Keeps _ (build_initialize_instruction-Keeps C tx)
  build_instructions-Keeps C register_tokens_lock_unlock (register_tokens_lock_unlock_dto tx) =
      alone-Keeps _ (build_register_token_lock_unlock_instruction-Keeps tx)
  build_instructions-Keeps C register_tokens_mint_burn (register_tokens_mint_burn_dto tx) =
      alone-Keeps _ (build_register_token_mint_burn_instruction-Keeps tx)
  build_instructions-Keeps C update_fee_config (update_fee_config_dto tx) =
      alone-Keeps _ (build_update_fee_config_instruction-Keeps tx)
  build_instructions-Keeps C update_program_version (update_program_version_dto tx) =
      alone-Keeps _ (build_update_program_version_instruction-Keeps tx)
  build_instructions-Keeps C update_min_bridging_amount (update_min_bridging_amount_dto tx) =
      alone-Keeps _ (build_update_min_bridging_amount_instruction-Keeps tx)
  build_instructions-Keeps C bridge_transaction (bridge_transaction_dto tx) =
      build_bridge_transaction_instruction-Keeps tx
  build_instructions-Keeps C (other_type t) dto = Keeps-lift _
  build_instructions-Keeps C kind dto = Keeps-lift _
