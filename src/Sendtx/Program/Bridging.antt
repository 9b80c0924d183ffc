-- ===== src/Sendtx/Program/Bridging.antt =====
-- sendtx/skyline_program/instructions.go: the instructions that move tokens and change the validator set. The
-- parameters and the accounts come in the source's order.
use solana_infrastructure.Base.{ℕ, true, false, List, [], ◌∷◌, Option}
use solana_infrastructure.Base.Bytes.{Bytes}
use solana_infrastructure.Wallet.Keys.{PublicKey, GenericInstruction, account_meta}
use solana_infrastructure.Sendtx.Program.{
  Value, keys, text, uint64, instruction, instruction_bridge_request,
  instruction_bridge_transaction, instruction_bridge_vsu, instruction_hot_wallet_increment,
}

module _ (encode : Value → Option Bytes) (own_id : PublicKey) where
  unfoldable pub new_bridge_request_instruction :
      (amount : ℕ) (receiver : Bytes) (destination_chain : Bytes) (fees : ℕ)
      (signer validator_set signers_ata vault vault_ata mint token_registry token_program
        system_program associated_token_program fee_config treasury event_authority
        program : PublicKey)
      → Option GenericInstruction
  unfolding instruction
  new_bridge_request_instruction amount receiver destination_chain fees signer validator_set
        signers_ata vault vault_ata mint token_registry token_program system_program
        associated_token_program fee_config treasury event_authority program =
      instruction encode own_id instruction_bridge_request
        (uint64 amount ∷ text receiver ∷ text destination_chain ∷ uint64 fees ∷ [])
        (account_meta signer true true
          ∷ account_meta validator_set true false
          ∷ account_meta signers_ata true false
          ∷ account_meta vault true false
          ∷ account_meta vault_ata true false
          ∷ account_meta mint true false
          ∷ account_meta token_registry false false
          ∷ account_meta token_program false false
          ∷ account_meta system_program false false
          ∷ account_meta associated_token_program false false
          ∷ account_meta fee_config false false
          ∷ account_meta treasury true false
          ∷ account_meta event_authority false false
          ∷ account_meta program false false
          ∷ [])

  unfoldable pub new_bridge_transaction_instruction :
      (payer validator_set vault token_program system_program associated_token_program instructions
        event_authority program : PublicKey)
      → Option GenericInstruction
  unfolding instruction
  new_bridge_transaction_instruction payer validator_set vault token_program system_program
        associated_token_program instructions event_authority program =
      instruction encode own_id instruction_bridge_transaction ([]) (
        account_meta payer true true
        ∷ account_meta validator_set true false
        ∷ account_meta vault true false
        ∷ account_meta token_program false false
        ∷ account_meta system_program false false
        ∷ account_meta associated_token_program false false
        ∷ account_meta instructions false false
        ∷ account_meta event_authority false false
        ∷ account_meta program false false
        ∷ [])

  unfoldable pub new_bridge_vsu_instruction :
      (added : List PublicKey) (removed : List PublicKey) (batch_id : ℕ)
      (payer validator_set system_program : PublicKey)
      → Option GenericInstruction
  unfolding instruction
  new_bridge_vsu_instruction added removed batch_id payer validator_set system_program =
      instruction encode own_id instruction_bridge_vsu
        (keys added ∷ keys removed ∷ uint64 batch_id ∷ [])
        (account_meta payer true true
          ∷ account_meta validator_set true false
          ∷ account_meta system_program false false
          ∷ [])

  unfoldable pub new_hot_wallet_increment_instruction :
      (amount : ℕ)
      (signer signers_ata vault vault_ata mint token_program system_program associated_token_program
        event_authority program : PublicKey)
      → Option GenericInstruction
  unfolding instruction
  new_hot_wallet_increment_instruction amount signer signers_ata vault vault_ata mint token_program
        system_program associated_token_program event_authority program =
      instruction encode own_id instruction_hot_wallet_increment (uint64 amount ∷ []) (
        account_meta signer true true
        ∷ account_meta signers_ata true false
        ∷ account_meta vault true false
        ∷ account_meta vault_ata true false
        ∷ account_meta mint false false
        ∷ account_meta token_program false false
        ∷ account_meta system_program false false
        ∷ account_meta associated_token_program false false
        ∷ account_meta event_authority false false
        ∷ account_meta program false false
        ∷ [])
