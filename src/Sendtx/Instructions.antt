-- ===== src/Sendtx/Instructions.antt =====
-- sendtx/tx_sender.go, buildInstructions: the instructions for a request of a kind.
pub mod SideBySide
mod Options
pub mod Kept
pub mod Builders
pub mod Confined
use solana_infrastructure.Base.{List, [], ◌∷◌, err}
use solana_infrastructure.Base.Bytes.{Bytes}
use solana_infrastructure.Wallet.Keys.{GenericInstruction}
use solana_infrastructure.Sendtx.Data.{
  ChainConfig, BridgeTransactionDto, SolTransferDto, SplTransferDto, CreateInstructionDto,
  BridgeRequestDto, BridgeVsuDto, HotWalletIncrementDto, InitializeDto, RegisterTokenLockUnlockDto,
  RegisterTokenMintBurnDto, UpdateFeeConfigDto, UpdateProgramVersionDto, UpdateMinBridgingAmountDto,
  Outside,
}
use solana_infrastructure.Sendtx.Monad.{M, ◌>>=◌, return, lift, wrong_dto, unsupported_type}
use solana_infrastructure.Sendtx.Build.{
  build_bridging_request_instruction, build_bridge_transaction_instruction,
  build_bridge_vsu_instruction, build_hot_wallet_increment_instruction,
}
use solana_infrastructure.Sendtx.Build.Admin.{
  build_initialize_instruction, build_register_token_lock_unlock_instruction,
  build_register_token_mint_burn_instruction, build_update_fee_config_instruction,
  build_update_program_version_instruction, build_update_min_bridging_amount_instruction,
}
use solana_infrastructure.Sendtx.Build.Transfers.{
  build_transfer_instruction, build_spl_transfer_instruction, build_create_instruction,
}

-- The kinds, with any other text.
pub data InstructionType : Type 0 where
  sol_transfer : InstructionType
  spl_transfer : InstructionType
  create_instruction : InstructionType
  bridging_request : InstructionType
  bridge_vsu : InstructionType
  hot_wallet_increment : InstructionType
  initialize : InstructionType
  register_tokens_lock_unlock : InstructionType
  register_tokens_mint_burn : InstructionType
  update_fee_config : InstructionType
  update_program_version : InstructionType
  update_min_bridging_amount : InstructionType
  bridge_transaction : InstructionType
  other_type : Bytes → InstructionType

-- The dynamic type of the request.
pub data TxDto : Type 0 where
  sol_transfer_dto : SolTransferDto → TxDto
  spl_transfer_dto : SplTransferDto → TxDto
  create_instruction_dto : CreateInstructionDto → TxDto
  bridging_request_dto : BridgeRequestDto → TxDto
  bridge_vsu_dto : BridgeVsuDto → TxDto
  hot_wallet_increment_dto : HotWalletIncrementDto → TxDto
  initialize_dto : InitializeDto → TxDto
  register_tokens_lock_unlock_dto : RegisterTokenLockUnlockDto → TxDto
  register_tokens_mint_burn_dto : RegisterTokenMintBurnDto → TxDto
  update_fee_config_dto : UpdateFeeConfigDto → TxDto
  update_program_version_dto : UpdateProgramVersionDto → TxDto
  update_min_bridging_amount_dto : UpdateMinBridgingAmountDto → TxDto
  bridge_transaction_dto : BridgeTransactionDto → TxDto
  other_dto : TxDto

abbrev pub alone : M GenericInstruction → M (List GenericInstruction)
alone m = do i ← m; return (i ∷ [])

module _ (O : Outside) (C : ChainConfig) where
  unfoldable pub build_instructions : InstructionType → TxDto → M (List GenericInstruction)
  build_instructions sol_transfer (sol_transfer_dto tx) = alone (build_transfer_instruction O tx)
  build_instructions spl_transfer (spl_transfer_dto tx) =
      alone (build_spl_transfer_instruction O tx)
  build_instructions create_instruction (create_instruction_dto tx) =
      alone (build_create_instruction O tx)
  build_instructions bridging_request (bridging_request_dto tx) =
      alone (build_bridging_request_instruction O C tx)
  build_instructions bridge_vsu (bridge_vsu_dto tx) = alone (build_bridge_vsu_instruction O tx)
  build_instructions hot_wallet_increment (hot_wallet_increment_dto tx) =
      alone (build_hot_wallet_increment_instruction O tx)
  build_instructions initialize (initialize_dto tx) = alone (build_initialize_instruction O C tx)
  build_instructions register_tokens_lock_unlock (register_tokens_lock_unlock_dto tx) =
      alone (build_register_token_lock_unlock_instruction O tx)
  build_instructions register_tokens_mint_burn (register_tokens_mint_burn_dto tx) =
      alone (build_register_token_mint_burn_instruction O tx)
  build_instructions update_fee_config (update_fee_config_dto tx) =
      alone (build_update_fee_config_instruction O tx)
  build_instructions update_program_version (update_program_version_dto tx) =
      alone (build_update_program_version_instruction O tx)
  build_instructions update_min_bridging_amount (update_min_bridging_amount_dto tx) =
      alone (build_update_min_bridging_amount_instruction O tx)
  build_instructions bridge_transaction (bridge_transaction_dto tx) =
      build_bridge_transaction_instruction O tx
  build_instructions (other_type t) dto = lift (err (unsupported_type t))
  build_instructions kind dto = lift (err wrong_dto)
