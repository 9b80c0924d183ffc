-- ===== src/Sendtx/Tests.antt =====
-- Inputs and tests of the modules of sendtx/.
use solana_infrastructure.Base.{
  ℕ, ◌≡◌, ◌⊎◌, ◌<◌, ◌≤◌, ◌*◌, refl, ap, sym, ◌↔◌, true, false, List, [], ◌∷◌, Option, none, some,
  Result, ok, err, panic, replicate, length, get_elem?, All, ◌==◌, if◌then◌else◌, arith,
}
use Prim.Native.Nat.{min}
use solana_infrastructure.Base.Bytes.{Bytes, bytes_eq}
use solana_infrastructure.Wallet.Keys.{
  PublicKey, Solana, AccountMeta, GenericInstruction, account_meta,
}
use solana_infrastructure.Wallet.Address.{
  validate_address, validate_public_key, public_key_from_address,
}
use solana_infrastructure.Tracker.Payload.{extract_solana_payload_from_ed25519}
use solana_infrastructure.Sendtx.Program.{encode_all, instruction}
use solana_infrastructure.Sendtx.Program.Bridging.{new_bridge_transaction_instruction}
use solana_infrastructure.Sendtx.Ed25519.{
  SignaturePair, no_signature_pairs, too_many_signature_pairs, empty_payload,
  build_batched_ed25519_instruction,
}
use solana_infrastructure.Sendtx.Ed25519.Layout.{IsSized}
use solana_infrastructure.Sendtx.Ed25519.Entries.{Verifies, data_of}
use solana_infrastructure.Sendtx.Ed25519.RoundTrip.{
  extract-build_batched, build_batched_ed25519_instruction-Verifies,
  build_batched_ed25519_instruction_errors,
}
use solana_infrastructure.Sendtx.Config.{
  InstructionConfig, new_instruction_config, apply_options, program_address_of, derive_pda,
  with_program_id, with_validator_set_pda, with_vault_pda, with_event_authority_pda,
}
use solana_infrastructure.Sendtx.Data.{
  ChainConfig, PayloadReceiver, TokenRegistry, Outside, BridgeTransactionDto, HotWalletIncrementDto,
}
use solana_infrastructure.Sendtx.Monad.{
  ◌>>=◌, lift, config, options, return, SendError, require_bridge_program_id,
}
use solana_infrastructure.Sendtx.Mints.{
  Derived, mint_of, register_all, get_all_registered_tokens, index_of, add_transfer, derive_one,
  derive_all, derive_bridge_mints_and_transfers, each_account, recipient_account,
  bridge_transaction_remaining_accounts,
}
use solana_infrastructure.Sendtx.Mints.Derivation.{
  Matches, derive_bridge_mints_and_transfers-Matches,
}
use solana_infrastructure.Sendtx.Mints.Accounts.{
  Layout, bridge_transaction_remaining_accounts-Layout, bridge_transaction_remaining_accounts_total,
}
use solana_infrastructure.Sendtx.Build.{with_compute_budget, build_bridge_transaction_instruction}
use solana_infrastructure.Sendtx.Instructions.{
  hot_wallet_increment, hot_wallet_increment_dto, bridge_transaction,
}
use solana_infrastructure.Sendtx.Transaction.{TxOption, create_tx}
use solana_infrastructure.Sendtx.Transaction.History.{
  SenderCall, create, alt_addresses, after_calls, create_tx-after_calls,
}
use solana_infrastructure.Sendtx.Budget.{
  ComputeBudget, set_compute_unit_limit, BudgetError, TransactionConfig, no_config, or_default,
  inline_compute_budget,
}
use solana_infrastructure.Sendtx.Budget.Inlined.{requested, others, inline_compute_budget_lem}
use solana_infrastructure.Sendtx.Budget.Batch.{
  BudgetLaws, Inlines, build_bridge_transaction_instruction-Inlines,
}

-- A key of 32 equal bytes.
abbrev key : ℕ → PublicKey
key n = replicate 32 n

abbrev sample_solana : Solana
sample_solana = record {
  from_base58 = λ b. if length b == 32 then some b else none;
  to_base58 = λ k. k;
  is_on_curve = λ k. true;
  program_address = λ seeds owner. some (key 7);
  associated_address = λ owner mint. some (key 9);
  token_program_id = key 21;
  token_metadata_program_id = key 22;
  system_program_id = key 23;
  associated_token_program_id = key 24;
  rent_key = key 25;
  instructions_key = key 26;
  loader_program_id = key 27;
}

abbrev made_limit : ℕ → GenericInstruction
made_limit n = record { program_id = key 31; accounts = []; raw = n ∷ [] }

abbrev sample_outside : Outside
sample_outside = record {
  solana = sample_solana;
  encode = λ v. some (1 ∷ []);
  own_id = key 30;
  decode_token_registry = λ b. some (record {
    token_id = 1;
    mint = key 4;
    is_lock_unlock = true;
    min_bridging_amount = 0;
    bump = 255;
  });
  ed25519_program_id = key 32;
  transfer = λ n from to. made_limit n;
  token_transfer = λ n from to owner. made_limit n;
  create_associated = λ from to mint. made_limit 0;
  set_compute_unit_limit = λ n. some (made_limit n);
  program_accounts = λ program. some (some (1 ∷ []) ∷ []);
}

abbrev sample_chain : ChainConfig
sample_chain = record {
  min_amount_to_bridge = 10;
  min_fee_for_bridging = 5;
  min_operation_fee_amount = 5;
  treasury_address = key 40;
  currency_token_id = 0;
}

abbrev sample_pairs : List SignaturePair
sample_pairs =
    record { pub_key = key 5; signature = replicate 64 6 }
    ∷ record { pub_key = key 8; signature = replicate 64 9 }
    ∷ []

abbrev sample_payload : Bytes
sample_payload = 1 ∷ 2 ∷ 3 ∷ []

abbrev sample_sized : All IsSized sample_pairs
sample_sized = (
  record { key_length = refl; signature_length = refl },
  (record { key_length = refl; signature_length = refl }, tt),
)

sample_built :
    build_batched_ed25519_instruction sample_pairs sample_payload
    ≡ ok (data_of sample_pairs sample_payload)
unfolding build_batched_ed25519_instruction
sample_built = refl

abbrev as_it_is : Bytes → Option Bytes
as_it_is b = some b

extract-build_batched_example :
    extract_solana_payload_from_ed25519 as_it_is (data_of sample_pairs sample_payload) 3
    ≡ ok sample_payload
extract-build_batched_example =
    extract-build_batched as_it_is sample_pairs sample_payload (data_of sample_pairs sample_payload)
      3 sample_payload sample_sized (omega arith) sample_built refl

build_batched_ed25519_instruction-Verifies_example :
    (pair : SignaturePair) × (get_elem? sample_pairs 1 ≡ some pair)
    × Verifies (data_of sample_pairs sample_payload) 1 pair sample_payload
build_batched_ed25519_instruction-Verifies_example =
    build_batched_ed25519_instruction-Verifies sample_pairs sample_payload
      (data_of sample_pairs sample_payload) 1 sample_sized (omega arith) sample_built (omega arith)

build_batched_ed25519_instruction_errors_example :
    ((build_batched_ed25519_instruction sample_pairs sample_payload ≡ err no_signature_pairs)
      ↔ (length sample_pairs ≡ 0))
    × ((build_batched_ed25519_instruction sample_pairs sample_payload
          ≡ err (too_many_signature_pairs (length sample_pairs)))
        ↔ (255 < length sample_pairs))
    × ((build_batched_ed25519_instruction sample_pairs sample_payload ≡ err empty_payload)
        ↔ ((0 < length sample_pairs) × (length sample_pairs ≤ 255) × (length sample_payload ≡ 0)))
    × (((raw : Bytes) × (build_batched_ed25519_instruction sample_pairs sample_payload ≡ ok raw))
        ↔ ((0 < length sample_pairs) × (length sample_pairs ≤ 255) × (0 < length sample_payload)))
build_batched_ed25519_instruction_errors_example =
    build_batched_ed25519_instruction_errors sample_pairs sample_payload

abbrev sample_registry : TokenRegistry
sample_registry = record {
  token_id = 1;
  mint = key 4;
  is_lock_unlock = true;
  min_bridging_amount = 0;
  bump = 255;
}

abbrev sample_receiver : ℕ → PayloadReceiver
sample_receiver n = record { address = key n; token_amount = record { token_id = 1; amount = 100 } }

abbrev sample_receivers : List PayloadReceiver
sample_receivers = sample_receiver 11 ∷ sample_receiver 12 ∷ []

abbrev sample_derived : Derived
sample_derived = record {
  mint_index = (key 4, 0) ∷ [];
  mints = key 4 ∷ [];
  token_ids = 1 ∷ [];
  transfers =
      record { recipient = key 11; mint_index = 0; amount = 100 }
      ∷ record { recipient = key 12; mint_index = 0; amount = 100 }
      ∷ [];
}

sample_derivation :
    derive_bridge_mints_and_transfers sample_solana sample_receivers (sample_registry ∷ [])
    ≡ ok sample_derived
unfolding derive_bridge_mints_and_transfers derive_all derive_one add_transfer index_of mint_of
    validate_address bytes_eq
sample_derivation = refl

derive_bridge_mints_and_transfers-Matches_example :
    Matches (sample_registry ∷ []) sample_receivers sample_derived
derive_bridge_mints_and_transfers-Matches_example =
    derive_bridge_mints_and_transfers-Matches sample_solana sample_receivers (sample_registry ∷ [])
      sample_derived sample_derivation

abbrev sample_accounts : List AccountMeta
sample_accounts =
    account_meta (key 4) true false
    ∷ account_meta (key 11) false false
    ∷ account_meta (key 12) false false
    ∷ account_meta (key 7) false false
    ∷ account_meta (key 9) true false
    ∷ account_meta (key 9) true false
    ∷ account_meta (key 9) true false
    ∷ []

sample_layout :
    bridge_transaction_remaining_accounts sample_solana
      (key 7)
      (key 3)
      sample_derived.mints
      sample_derived.token_ids
      sample_derived.transfers
    ≡ ok sample_accounts
unfolding bridge_transaction_remaining_accounts each_account recipient_account
sample_layout = refl

bridge_transaction_remaining_accounts-Layout_example :
    Layout sample_solana (sample_registry ∷ []) sample_receivers sample_derived sample_accounts
bridge_transaction_remaining_accounts-Layout_example =
    bridge_transaction_remaining_accounts-Layout sample_solana sample_receivers
      (sample_registry ∷ []) sample_derived (key 7) (key 3) sample_derivation (omega arith)
      sample_accounts sample_layout

bridge_transaction_remaining_accounts_total_example :
    (out : List AccountMeta) × (bridge_transaction_remaining_accounts sample_solana
        (key 7)
        (key 3)
        sample_derived.mints
        sample_derived.token_ids
        sample_derived.transfers
      ≡ ok out)
bridge_transaction_remaining_accounts_total_example =
    bridge_transaction_remaining_accounts_total sample_solana sample_receivers
      (sample_registry ∷ []) sample_derived (key 7) (key 3) sample_derivation (omega arith)
      (λ seeds owner. (key 7, refl)) (λ owner mint. (key 9, refl))

abbrev sample_config : InstructionConfig
sample_config = new_instruction_config sample_solana

abbrev sample_increment : HotWalletIncrementDto
sample_increment = record {
  program_id = key 3;
  sender_addr = key 10;
  token_mint = key 4;
  token_id = 1;
  amount = 50;
}

abbrev decode_limit : List AccountMeta → Bytes → Option ComputeBudget
decode_limit accounts [] = none
decode_limit accounts (n ∷ rest) = some (set_compute_unit_limit n)

-- What the builder of solana-go is given.
abbrev as_given :
    List GenericInstruction → TxOption → Result SendError (List GenericInstruction × TxOption)
as_given is option = ok (is, option)

abbrev same_order : List (ℕ × PublicKey) → List (ℕ × PublicKey)
same_order tokens = tokens

-- A request for another program and token, one of the wrong kind, and the addresses for a table.
abbrev earlier_calls : List SenderCall
earlier_calls =
    create hot_wallet_increment
      (hot_wallet_increment_dto (record sample_increment { program_id = key 6; token_id = 2 })) []
    ∷ create bridge_transaction (hot_wallet_increment_dto sample_increment) []
    ∷ alt_addresses (key 8) ((1, key 4) ∷ [])
    ∷ []

create_tx-after_calls_example :
    (create_tx sample_outside sample_chain
      (key 31)
      decode_limit
      as_given
      hot_wallet_increment
      (hot_wallet_increment_dto sample_increment)
      []
      (after_calls sample_outside sample_chain
        (key 31)
        decode_limit
        as_given
        same_order
        earlier_calls
        sample_config)).1
    ≡ (create_tx sample_outside sample_chain
        (key 31)
        decode_limit
        as_given
        hot_wallet_increment
        (hot_wallet_increment_dto sample_increment)
        []
        sample_config).1
create_tx-after_calls_example =
    create_tx-after_calls sample_outside sample_chain (key 31) decode_limit as_given same_order
      earlier_calls hot_wallet_increment (hot_wallet_increment_dto sample_increment) []
      sample_config

abbrev plain_instruction : GenericInstruction
plain_instruction = record { program_id = key 3; accounts = []; raw = [] }

abbrev some_instructions : List GenericInstruction
some_instructions = made_limit 5 ∷ plain_instruction ∷ made_limit 6 ∷ []

inline_compute_budget_lem_example :
    ((c : TransactionConfig) × (requested (key 31) decode_limit some_instructions no_config
        ≡ some c)
      × (inline_compute_budget (key 31) decode_limit some_instructions
          ≡ ok (
            others (key 31) decode_limit some_instructions,
            record {
              compute_units =
                  or_default c.compute_unit_limit (
                    min (200000 * length (others (key 31) decode_limit some_instructions)) 1400000);
              loaded_bytes = or_default c.loaded_accounts_data_size_limit 67108864;
            },
          )))
    ⊎ ((requested (key 31) decode_limit some_instructions no_config ≡ none)
        × (e : BudgetError) × (inline_compute_budget (key 31) decode_limit some_instructions
            ≡ err e))
inline_compute_budget_lem_example =
    inline_compute_budget_lem (key 31) decode_limit some_instructions

abbrev sample_batch : BridgeTransactionDto
sample_batch = record {
  program_id = key 3;
  sender_addr = key 10;
  receivers = sample_receivers;
  payload_bytes = sample_payload;
  signature_pairs = sample_pairs;
}

abbrev or_nothing : Result SendError (List GenericInstruction) → List GenericInstruction
or_nothing (ok is) = is
or_nothing (err e) = []
or_nothing panic = []

abbrev sample_batch_instructions : List GenericInstruction
sample_batch_instructions =
    or_nothing (build_bridge_transaction_instruction sample_outside sample_batch sample_config).1

sample_batch_runs :
    (build_bridge_transaction_instruction sample_outside sample_batch sample_config).1
    ≡ ok sample_batch_instructions
unfolding build_bridge_transaction_instruction ◌>>=◌ lift config options return apply_options
    with_program_id with_validator_set_pda with_vault_pda with_event_authority_pda derive_pda
    program_address_of validate_address validate_public_key public_key_from_address
    require_bridge_program_id bytes_eq get_all_registered_tokens register_all
    derive_bridge_mints_and_transfers derive_all derive_one add_transfer index_of mint_of
    new_bridge_transaction_instruction instruction encode_all bridge_transaction_remaining_accounts
    each_account recipient_account build_batched_ed25519_instruction with_compute_budget
sample_batch_runs = refl

same_made : (n : ℕ) (i : GenericInstruction) → some (made_limit n) ≡ some i → made_limit n ≡ i
same_made n i e = cc

sample_laws : BudgetLaws sample_outside (key 31) decode_limit
sample_laws = record {
  own_program = λ n i e. ap (λ (j : GenericInstruction). j.program_id) (sym (same_made n i e));
  decodes = λ n i e.
      ap (λ (j : GenericInstruction). decode_limit j.accounts j.raw) (sym (same_made n i e));
}

build_bridge_transaction_instruction-Inlines_example :
    Inlines sample_outside (key 3) (key 31) decode_limit sample_batch_instructions
unfolding bytes_eq
build_bridge_transaction_instruction-Inlines_example =
    build_bridge_transaction_instruction-Inlines sample_outside (key 31) decode_limit sample_batch
      sample_config sample_batch_instructions sample_laws refl refl sample_batch_runs
