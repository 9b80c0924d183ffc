-- ===== src/Sendtx/Instructions/Confined.antt =====
-- About the builders of sendtx/tx_sender.go: what an earlier request leaves in the shared config.
use solana_infrastructure.Base.{
  ◌≡◌, ap, sym, ◌∙◌, Result, panic, refl, Bool, true, false, List, [], ◌∷◌, ok, err,
}
use solana_infrastructure.Base.Bytes.{Bytes}
use solana_infrastructure.Wallet.Keys.{PublicKey, GenericInstruction, zero_key}
use solana_infrastructure.Sendtx.Config.{InstructionConfig}
use solana_infrastructure.Sendtx.Data.{
  ChainConfig, Outside, SolTransferDto, SplTransferDto, CreateInstructionDto, BridgeRequestDto,
  BridgeVsuDto, HotWalletIncrementDto, InitializeDto, RegisterTokenLockUnlockDto,
  RegisterTokenMintBurnDto, UpdateFeeConfigDto, UpdateProgramVersionDto, UpdateMinBridgingAmountDto,
  BridgeTransactionDto,
}
use solana_infrastructure.Sendtx.Monad.{
  lift, return, bind_result, M, ◌>>=◌ as ◌>>=m◌, ◌>>◌ as ◌>>m◌, Role, SendError, demand,
}
use solana_infrastructure.Sendtx.Build.{
  with_compute_budget, check_mint_unless, parse_validators, build_bridging_request_instruction,
  build_bridge_transaction_instruction, build_bridge_vsu_instruction,
  build_hot_wallet_increment_instruction,
}
use solana_infrastructure.Sendtx.Build.Admin.{
  new_treasury, build_initialize_instruction, build_register_token_lock_unlock_instruction,
  build_register_token_mint_burn_instruction, build_update_fee_config_instruction,
  build_update_program_version_instruction, build_update_min_bridging_amount_instruction,
}
use solana_infrastructure.Sendtx.Build.Transfers.{
  build_transfer_instruction, build_spl_transfer_instruction, build_create_instruction,
}
use solana_infrastructure.Sendtx.Instructions.{
  InstructionType, TxDto, other_type, bridge_transaction, bridge_transaction_dto, sol_transfer,
  sol_transfer_dto, spl_transfer, spl_transfer_dto, create_instruction, create_instruction_dto,
  bridging_request, bridging_request_dto, bridge_vsu, bridge_vsu_dto, hot_wallet_increment,
  hot_wallet_increment_dto, initialize, initialize_dto, register_tokens_lock_unlock,
  register_tokens_lock_unlock_dto, register_tokens_mint_burn, register_tokens_mint_burn_dto,
  update_fee_config, update_fee_config_dto, update_program_version, update_program_version_dto,
  update_min_bridging_amount, update_min_bridging_amount_dto, alone, build_instructions,
}
use solana_infrastructure.Sendtx.Instructions.SideBySide.{
  SameRun, Still, lift-Still, return-Still, bind-Still, then-Still, then_lift, bind_lift, then_same,
  bind_same, return_same, config_same,
}
use solana_infrastructure.Sendtx.Instructions.Options.{
  after_none, after-with_program_id, after-with_validator_set_pda, after-with_vault_pda,
  after-with_event_authority_pda, after-with_program_config_pda, after-with_fee_config_pda,
  after-with_token_registry_pda, after-with_token_id_guard_pda, after-with_metadata_pda,
  after-with_program_data_account,
}

-- The config with what the options set taken from another, and the rest kept.
abbrev pub with_leftovers : InstructionConfig → InstructionConfig → InstructionConfig
with_leftovers c old = record old {
  token_program_id = c.token_program_id;
  token_metadata_program_id = c.token_metadata_program_id;
  system_program_id = c.system_program_id;
  spl_associated_token_account_program_id = c.spl_associated_token_account_program_id;
  rent_pubkey = c.rent_pubkey;
}

module _ (O : Outside) where
  demand-Still : (b : Bool) (e : SendError) → Still (demand b e)
  demand-Still true e = record { value = ok tt; still = λ x. refl }
  demand-Still false e = record { value = err e; still = λ x. refl }

  with_compute_budget_same :
      (b : Bool) (is : List GenericInstruction) (c c' : InstructionConfig)
      → SameRun (with_compute_budget O b is) c c'
  unfolding with_compute_budget
  with_compute_budget_same true is c c' = bind_lift _ _ c c' (λ i. return_same (i ∷ is) c c')
  with_compute_budget_same false is c c' = return_same is c c'

  check_mint_unless-Still : (b : Bool) (mint : PublicKey) → Still (check_mint_unless O b mint)
  unfolding check_mint_unless
  check_mint_unless-Still true mint = return-Still tt
  check_mint_unless-Still false mint = lift-Still _

  new_treasury-Still : (b : Bool) (address : Bytes) → Still (new_treasury O b address)
  unfolding new_treasury
  new_treasury-Still true address = then-Still _ _ (lift-Still _) (lift-Still _)
  new_treasury-Still false address = return-Still zero_key

  parse_validators-Still :
      (role : Role) (addresses : List Bytes) → Still (parse_validators O role addresses)
  unfolding parse_validators
  parse_validators-Still role [] = return-Still []
  parse_validators-Still role (a ∷ addresses) = then-Still _ _ (lift-Still _) (
      bind-Still _ _ (lift-Still _)
        λ key. bind-Still _ _ (parse_validators-Still role addresses) λ rest. return-Still _)

  then_demand :
      {B : Type 0} (b : Bool) (e : SendError) (k : M B) (c c' : InstructionConfig)
      → SameRun k c c'
      → SameRun (demand b e >>m k) c c'
  then_demand b e k c c' h = then_same (demand b e) k c c' (demand-Still b e) h

  then_check_mint :
      {B : Type 0} (b : Bool) (mint : PublicKey) (k : M B) (c c' : InstructionConfig)
      → SameRun k c c'
      → SameRun (check_mint_unless O b mint >>m k) c c'
  then_check_mint b mint k c c' h =
      then_same (check_mint_unless O b mint) k c c' (check_mint_unless-Still b mint) h

  bind_new_treasury :
      {B : Type 0} (b : Bool) (address : Bytes) (f : PublicKey → M B) (c c' : InstructionConfig)
      → ((a : PublicKey) → SameRun (f a) c c')
      → SameRun (new_treasury O b address >>=m f) c c'
  bind_new_treasury b address f c c' h =
      bind_same (new_treasury O b address) f c c' (new_treasury-Still b address) h

  bind_parse_validators :
      {B : Type 0} (role : Role) (l : List Bytes) (f : List PublicKey → M B)
      (c c' : InstructionConfig)
      → ((a : List PublicKey) → SameRun (f a) c c')
      → SameRun (parse_validators O role l >>=m f) c c'
  bind_parse_validators role l f c c' h =
      bind_same (parse_validators O role l) f c c' (parse_validators-Still role l) h

  ruleset runs = (
    then_lift, bind_lift, return_same, config_same, refl, after_none, after-with_program_id,
    after-with_validator_set_pda, after-with_vault_pda, after-with_event_authority_pda,
    after-with_program_config_pda, after-with_fee_config_pda, after-with_token_registry_pda,
    after-with_token_id_guard_pda, after-with_metadata_pda, after-with_program_data_account,
    then_demand, with_compute_budget_same, then_check_mint, bind_new_treasury,
    bind_parse_validators,
  )

  build_transfer_instruction_same :
      (tx : SolTransferDto) (c old : InstructionConfig)
      → SameRun (build_transfer_instruction O tx) c (with_leftovers c old)
  unfolding build_transfer_instruction
  build_transfer_instruction_same tx c old = search runs depth 40

  build_spl_transfer_instruction_same :
      (tx : SplTransferDto) (c old : InstructionConfig)
      → SameRun (build_spl_transfer_instruction O tx) c (with_leftovers c old)
  unfolding build_spl_transfer_instruction
  build_spl_transfer_instruction_same tx c old = search runs depth 40

  build_create_instruction_same :
      (tx : CreateInstructionDto) (c old : InstructionConfig)
      → SameRun (build_create_instruction O tx) c (with_leftovers c old)
  unfolding build_create_instruction
  build_create_instruction_same tx c old = search runs depth 40

  build_bridging_request_instruction_same :
      (C : ChainConfig) (tx : BridgeRequestDto) (c old : InstructionConfig)
      → SameRun (build_bridging_request_instruction O C tx) c (with_leftovers c old)
  unfolding build_bridging_request_instruction
  build_bridging_request_instruction_same C tx c old = then_lift _ _ _ _ (
      then_lift _ _ _ _ (
        then_lift _ _ _ _ (
          then_lift _ _ _ _ (
            bind_lift _ _ _ _
              (λ key. then_lift _ _ _ _ (bind_lift _ _ _ _ (λ r. search runs depth 40)))))))

  build_bridge_vsu_instruction_same :
      (tx : BridgeVsuDto) (c old : InstructionConfig)
      → SameRun (build_bridge_vsu_instruction O tx) c (with_leftovers c old)
  unfolding build_bridge_vsu_instruction
  build_bridge_vsu_instruction_same tx c old = search runs depth 40

  build_hot_wallet_increment_instruction_same :
      (tx : HotWalletIncrementDto) (c old : InstructionConfig)
      → SameRun (build_hot_wallet_increment_instruction O tx) c (with_leftovers c old)
  unfolding build_hot_wallet_increment_instruction
  build_hot_wallet_increment_instruction_same tx c old = search runs depth 40

  build_initialize_instruction_same :
      (C : ChainConfig) (tx : InitializeDto) (c old : InstructionConfig)
      → SameRun (build_initialize_instruction O C tx) c (with_leftovers c old)
  unfolding build_initialize_instruction
  build_initialize_instruction_same C tx c old = search runs depth 40

  build_register_token_lock_unlock_instruction_same :
      (tx : RegisterTokenLockUnlockDto) (c old : InstructionConfig)
      → SameRun (build_register_token_lock_unlock_instruction O tx) c (with_leftovers c old)
  unfolding build_register_token_lock_unlock_instruction
  build_register_token_lock_unlock_instruction_same tx c old = search runs depth 40

  build_register_token_mint_burn_instruction_same :
      (tx : RegisterTokenMintBurnDto) (c old : InstructionConfig)
      → SameRun (build_register_token_mint_burn_instruction O tx) c (with_leftovers c old)
  unfolding build_register_token_mint_burn_instruction
  build_register_token_mint_burn_instruction_same tx c old = search runs depth 40

  build_update_fee_config_instruction_same :
      (tx : UpdateFeeConfigDto) (c old : InstructionConfig)
      → SameRun (build_update_fee_config_instruction O tx) c (with_leftovers c old)
  unfolding build_update_fee_config_instruction
  build_update_fee_config_instruction_same tx c old = search runs depth 40

  build_update_program_version_instruction_same :
      (tx : UpdateProgramVersionDto) (c old : InstructionConfig)
      → SameRun (build_update_program_version_instruction O tx) c (with_leftovers c old)
  unfolding build_update_program_version_instruction
  build_update_program_version_instruction_same tx c old = search runs depth 40

  build_update_min_bridging_amount_instruction_same :
      (tx : UpdateMinBridgingAmountDto) (c old : InstructionConfig)
      → SameRun (build_update_min_bridging_amount_instruction O tx) c (with_leftovers c old)
  unfolding build_update_min_bridging_amount_instruction
  build_update_min_bridging_amount_instruction_same tx c old = search runs depth 40

  build_bridge_transaction_instruction_same :
      (tx : BridgeTransactionDto) (c old : InstructionConfig)
      → SameRun (build_bridge_transaction_instruction O tx) c (with_leftovers c old)
  unfolding build_bridge_transaction_instruction
  build_bridge_transaction_instruction_same tx c old = search runs depth 40

  -- The results of two runs, the second with the instruction put into a list.
  listed : Result SendError GenericInstruction → Result SendError (List GenericInstruction)
  listed (ok i) = ok (i ∷ [])
  listed (err e) = err e
  listed panic = panic

  listed_pair :
      (x : InstructionConfig × Result SendError GenericInstruction)
      → (bind_result x.1 (λ i. return (i ∷ [])) x.0).1 ≡ listed x.1
  unfolding listed return
  listed_pair (c, ok i) = refl
  listed_pair (c, err e) = refl
  listed_pair (c, panic) = refl

  alone_same :
      (m : M GenericInstruction) (c c' : InstructionConfig)
      → SameRun m c c'
      → SameRun (alone m) c c'
  unfolding ◌>>=m◌
  alone_same m c c' h = record {
    results = listed_pair (m c) ∙ ap listed h.results ∙ sym (listed_pair (m c'));
  }

  -- buildInstructions returns the same instructions or the same error, whatever earlier requests
  -- have left in the fields of the sender's config that the options set.
  pub build_instructions_same :
      (C : ChainConfig) (kind : InstructionType) (dto : TxDto) (c old : InstructionConfig)
      → SameRun (build_instructions O C kind dto) c (with_leftovers c old)
  unfolding build_instructions lift
  build_instructions_same C sol_transfer (sol_transfer_dto tx) c old =
      alone_same _ _ _ (build_transfer_instruction_same tx c old)
  build_instructions_same C spl_transfer (spl_transfer_dto tx) c old =
      alone_same _ _ _ (build_spl_transfer_instruction_same tx c old)
  build_instructions_same C create_instruction (create_instruction_dto tx) c old =
      alone_same _ _ _ (build_create_instruction_same tx c old)
  build_instructions_same C bridging_request (bridging_request_dto tx) c old =
      alone_same _ _ _ (build_bridging_request_instruction_same C tx c old)
  build_instructions_same C bridge_vsu (bridge_vsu_dto tx) c old =
      alone_same _ _ _ (build_bridge_vsu_instruction_same tx c old)
  build_instructions_same C hot_wallet_increment (hot_wallet_increment_dto tx) c old =
      alone_same _ _ _ (build_hot_wallet_increment_instruction_same tx c old)
  build_instructions_same C initialize (initialize_dto tx) c old =
      alone_same _ _ _ (build_initialize_instruction_same C tx c old)
  build_instructions_same C register_tokens_lock_unlock (register_tokens_lock_unlock_dto tx) c old =
      alone_same _ _ _ (build_register_token_lock_unlock_instruction_same tx c old)
  build_instructions_same C register_tokens_mint_burn (register_tokens_mint_burn_dto tx) c old =
      alone_same _ _ _ (build_register_token_mint_burn_instruction_same tx c old)
  build_instructions_same C update_fee_config (update_fee_config_dto tx) c old =
      alone_same _ _ _ (build_update_fee_config_instruction_same tx c old)
  build_instructions_same C update_program_version (update_program_version_dto tx) c old =
      alone_same _ _ _ (build_update_program_version_instruction_same tx c old)
  build_instructions_same C update_min_bridging_amount (update_min_bridging_amount_dto tx) c old =
      alone_same _ _ _ (build_update_min_bridging_amount_instruction_same tx c old)
  build_instructions_same C bridge_transaction (bridge_transaction_dto tx) c old =
      build_bridge_transaction_instruction_same tx c old
  build_instructions_same C (other_type t) dto c old = record { results = refl }
  build_instructions_same C kind dto c old = record { results = refl }
