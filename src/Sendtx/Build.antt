-- ===== src/Sendtx/Build.antt =====
-- sendtx/tx_sender.go: the builders of the instructions that move tokens and change the validator
-- set. The other builders are in the children.
pub mod Admin
pub mod Transfers
use solana_infrastructure.Base.{
  ℕ, zero, suc, ◌+◌, ◌%◌, Bool, true, false, ◌||◌, List, [], ◌∷◌, ◌++◌, Option, none, some, Result,
  ok, err, panic, or_fail, map_err, length, ltb, ◌==◌, not,
}
use solana_infrastructure.Base.Bytes.{Bytes, bytes_eq, u64_mod}
use solana_infrastructure.Wallet.Keys.{PublicKey, zero_key, GenericInstruction}
use solana_infrastructure.Wallet.Address.{validate_public_key, find_associated_token_address}
use solana_infrastructure.Sendtx.Ed25519.{build_batched_ed25519_instruction}
use solana_infrastructure.Sendtx.Config.{
  with_program_id, with_validator_set_pda, with_vault_pda, with_token_registry_pda,
  with_fee_config_pda, with_event_authority_pda,
}
use solana_infrastructure.Sendtx.Program.Bridging.{
  new_bridge_request_instruction, new_bridge_transaction_instruction, new_bridge_vsu_instruction,
  new_hot_wallet_increment_instruction,
}
use solana_infrastructure.Sendtx.Data.{
  ChainConfig, BridgingTxReceiver, BridgeRequestDto, BridgeTransactionDto, BridgeVsuDto,
  HotWalletIncrementDto, Outside,
}
use solana_infrastructure.Sendtx.Monad.{
  M, ◌>>=◌, ◌>>◌, return, lift, config, demand, options, Role, SendError, sender, treasury,
  adding_validator, removing_validator, token_mint, vault, bridging_fee_too_low,
  operation_fee_too_low, amount_too_low, amount_zero, receiver_count, invalid_key, no_token_account,
  encoding, ed25519, compute_budget, require_bridge_program_id, check_address, parse_address,
}
use solana_infrastructure.Sendtx.Mints.{
  mint_of, get_all_registered_tokens, derive_bridge_mints_and_transfers,
  bridge_transaction_remaining_accounts,
}

abbrev pub max_bridge_transaction_receivers : ℕ
max_bridge_transaction_receivers = 5

abbrev pub bridge_transaction_max_receivers_compute_unit_limit : ℕ
bridge_transaction_max_receivers_compute_unit_limit = 400000

unfoldable pub check_fees : ChainConfig → ℕ → ℕ → Result SendError (Unit {0})
check_fees C bridging_fee operation_fee = elim (ltb bridging_fee C.min_fee_for_bridging) [
  | true ↦ err (bridging_fee_too_low C.min_fee_for_bridging)
  | false ↦ elim (ltb operation_fee C.min_operation_fee_amount) [
    | true ↦ err (operation_fee_too_low C.min_operation_fee_amount)
    | false ↦ ok tt
  ]
]

-- `withProgramID`
abbrev pub under_program : PublicKey → GenericInstruction → GenericInstruction
under_program program i = record { program_id = program; accounts = i.accounts; raw = i.raw }

-- The minimum on the amount of each receiver.
unfoldable pub check_amounts : ChainConfig → List BridgingTxReceiver → Result SendError (Unit {0})
check_amounts C [] = ok tt
check_amounts C (r ∷ receivers) = elim (ltb r.token_amount.amount C.min_amount_to_bridge) [
  | true ↦ err (amount_too_low C.min_amount_to_bridge)
  | false ↦ check_amounts C receivers
]

unfoldable pub only_receiver : List BridgingTxReceiver → Result SendError BridgingTxReceiver
only_receiver [] = err (receiver_count 0)
only_receiver (r ∷ []) = ok r
only_receiver (r ∷ q ∷ receivers) = err (receiver_count (suc (suc (length receivers))))

module _ (O : Outside) where
  abbrev pub token_account : Role → PublicKey → PublicKey → M PublicKey
  token_account role owner mint =
      lift (map_err (no_token_account role) (find_associated_token_address O.solana owner mint))

  abbrev pub check_key : Role → PublicKey → Bool → M (Unit {0})
  check_key role key off_curve =
      lift (map_err (invalid_key role) (validate_public_key O.solana key off_curve))

  -- The loop that parses validators' addresses.
  unfoldable pub parse_validators : Role → List Bytes → M (List PublicKey)
  parse_validators role [] = return []
  parse_validators role (a ∷ addresses) = do
    check_address O.solana role a true
    key ← parse_address O.solana role a
    rest ← parse_validators role addresses
    return (key ∷ rest)

  unfoldable pub build_bridge_vsu_instruction : BridgeVsuDto → M GenericInstruction
  build_bridge_vsu_instruction tx = do
    lift (require_bridge_program_id tx.program_id)
    check_address O.solana sender tx.sender_addr true
    adding ← parse_validators adding_validator tx.adding_validator_addrs
    removing ← parse_validators removing_validator tx.removing_validator_addrs
    key ← parse_address O.solana sender tx.sender_addr
    options (with_program_id O.solana tx.program_id ∷ with_validator_set_pda O.solana ∷ [])
    c ← config
    i ← lift (
        or_fail
          (new_bridge_vsu_instruction O.encode O.own_id adding removing tx.batch_id key
            c.validator_set_pda c.system_program_id)
          encoding)
    return (under_program tx.program_id i)

  -- The native mint is the zero key, and needs no check.
  unfoldable pub check_mint_unless : Bool → PublicKey → M (Unit {0})
  check_mint_unless true mint = return tt
  check_mint_unless false mint = check_key token_mint mint true

  unfoldable pub build_hot_wallet_increment_instruction :
      HotWalletIncrementDto → M GenericInstruction
  build_hot_wallet_increment_instruction tx = do
    lift (require_bridge_program_id tx.program_id)
    demand (not (tx.amount == 0)) amount_zero
    check_address O.solana sender tx.sender_addr true
    key ← parse_address O.solana sender tx.sender_addr
    mint ← parse_address O.solana token_mint tx.token_mint
    check_mint_unless (bytes_eq mint zero_key) mint
    options (
        with_program_id O.solana tx.program_id
        ∷ with_vault_pda O.solana
        ∷ with_token_registry_pda O.solana tx.token_id
        ∷ with_event_authority_pda O.solana
        ∷ [])
    c ← config
    sender_ata ← token_account sender key mint
    vault_ata ← token_account vault c.vault_pda mint
    i ← lift (
        or_fail
          (new_hot_wallet_increment_instruction O.encode O.own_id tx.amount key sender_ata
            c.vault_pda vault_ata mint c.token_program_id c.system_program_id
            c.spl_associated_token_account_program_id c.event_authority_pda tx.program_id)
          encoding)
    return (under_program tx.program_id i)

  unfoldable pub build_bridging_request_instruction :
      ChainConfig → BridgeRequestDto → M GenericInstruction
  build_bridging_request_instruction C tx = do
    lift (require_bridge_program_id tx.program_id)
    lift (check_fees C tx.bridging_fee tx.operation_fee)
    lift (check_amounts C tx.receivers)
    check_address O.solana sender tx.sender_addr false
    key ← parse_address O.solana sender tx.sender_addr
    check_key treasury C.treasury_address false
    r ← lift (only_receiver tx.receivers)
    options (
        with_program_id O.solana tx.program_id
        ∷ with_validator_set_pda O.solana
        ∷ with_vault_pda O.solana
        ∷ with_token_registry_pda O.solana r.token_amount.token_id
        ∷ with_fee_config_pda O.solana
        ∷ with_event_authority_pda O.solana
        ∷ [])
    c ← config
    registered ← lift (get_all_registered_tokens O tx.program_id)
    let mint = mint_of registered r.token_amount.token_id
    check_key token_mint mint true
    sender_ata ← token_account sender key mint
    vault_ata ← token_account vault c.vault_pda mint
    i ← lift (
        or_fail
          (new_bridge_request_instruction O.encode O.own_id r.token_amount.amount r.address
            tx.dst_chain_id ((tx.bridging_fee + tx.operation_fee) % u64_mod) key c.validator_set_pda
            sender_ata c.vault_pda vault_ata mint c.token_registry_pda c.token_program_id
            c.system_program_id c.spl_associated_token_account_program_id c.fee_config_pda
            C.treasury_address c.event_authority_pda tx.program_id)
          encoding)
    return (under_program tx.program_id i)

  -- The instruction for more compute units stands first if the receivers are as many as allowed.
  unfoldable pub with_compute_budget : Bool → List GenericInstruction → M (List GenericInstruction)
  with_compute_budget true is = do
    i ← lift (
        or_fail (O.set_compute_unit_limit bridge_transaction_max_receivers_compute_unit_limit)
          compute_budget)
    return (i ∷ is)
  with_compute_budget false is = return is

  unfoldable pub build_bridge_transaction_instruction :
      BridgeTransactionDto → M (List GenericInstruction)
  build_bridge_transaction_instruction tx = do
    lift (require_bridge_program_id tx.program_id)
    check_address O.solana sender tx.sender_addr false
    key ← parse_address O.solana sender tx.sender_addr
    options (
        with_program_id O.solana tx.program_id
        ∷ with_validator_set_pda O.solana
        ∷ with_vault_pda O.solana
        ∷ with_event_authority_pda O.solana
        ∷ [])
    c ← config
    registered ← lift (get_all_registered_tokens O tx.program_id)
    d ← lift (derive_bridge_mints_and_transfers O.solana tx.receivers registered)
    i ← lift (
        or_fail
          (new_bridge_transaction_instruction O.encode O.own_id key c.validator_set_pda c.vault_pda
            c.token_program_id c.system_program_id c.spl_associated_token_account_program_id
            O.solana.instructions_key c.event_authority_pda tx.program_id)
          encoding)
    remaining ← lift (
        bridge_transaction_remaining_accounts O.solana c.vault_pda tx.program_id d.mints d.token_ids
          d.transfers)
    signatures ←
        lift
          (map_err ed25519 (build_batched_ed25519_instruction tx.signature_pairs tx.payload_bytes))
    with_compute_budget (length tx.receivers == max_bridge_transaction_receivers) (
        record { program_id = O.ed25519_program_id; accounts = []; raw = signatures }
        ∷ record { program_id = tx.program_id; accounts = i.accounts ++ remaining; raw = i.raw }
        ∷ [])
