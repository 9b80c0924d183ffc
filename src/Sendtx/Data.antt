-- ===== src/Sendtx/Data.antt =====
-- sendtx/data.go and the fields of TxSender: the requests, and what the builders use from outside.
use solana_infrastructure.Base.{ℕ, Bool, List, Option}
use solana_infrastructure.Base.Bytes.{Bytes}
use solana_infrastructure.Wallet.Keys.{PublicKey, Solana, GenericInstruction}
use solana_infrastructure.Sendtx.Program.{Value}
use solana_infrastructure.Sendtx.Ed25519.{SignaturePair}

pub record ChainConfig : Type 0 where
  pub min_amount_to_bridge : ℕ
  pub min_fee_for_bridging : ℕ
  pub min_operation_fee_amount : ℕ
  pub treasury_address : PublicKey
  pub currency_token_id : ℕ

-- wallet/token.go
pub record TokenAmount : Type 0 where
  pub token_id : ℕ
  pub amount : ℕ

pub record PayloadReceiver : Type 0 where
  pub address : PublicKey
  pub token_amount : TokenAmount

pub record BridgingTxReceiver : Type 0 where
  pub address : Bytes
  pub token_amount : TokenAmount

pub record BridgeRequestDto : Type 0 where
  pub program_id : PublicKey
  pub dst_chain_id : Bytes
  pub sender_addr : Bytes
  pub receivers : List BridgingTxReceiver
  pub bridging_fee : ℕ
  pub operation_fee : ℕ

pub record TransferItem : Type 0 where
  pub recipient : PublicKey
  pub mint_index : ℕ
  pub amount : ℕ

pub record BridgeTransactionDto : Type 0 where
  pub program_id : PublicKey
  pub sender_addr : Bytes
  pub receivers : List PayloadReceiver
  pub payload_bytes : Bytes
  pub signature_pairs : List SignaturePair

pub record BridgeVsuDto : Type 0 where
  pub program_id : PublicKey
  pub sender_addr : Bytes
  pub adding_validator_addrs : List Bytes
  pub removing_validator_addrs : List Bytes
  pub batch_id : ℕ

pub record HotWalletIncrementDto : Type 0 where
  pub program_id : PublicKey
  pub sender_addr : Bytes
  pub token_mint : Bytes
  pub token_id : ℕ
  pub amount : ℕ

pub record InitializeDto : Type 0 where
  pub program_id : PublicKey
  pub authority_addr : Bytes
  pub validators : List Bytes
  pub last_id : ℕ

pub record RegisterTokenLockUnlockDto : Type 0 where
  pub program_id : PublicKey
  pub authority_addr : Bytes
  pub token_mint : Bytes
  pub token_id : ℕ
  pub min_bridging_amount : ℕ

pub record RegisterTokenMintBurnDto : Type 0 where
  pub program_id : PublicKey
  pub authority_addr : Bytes
  pub token_mint : Bytes
  pub token_id : ℕ
  pub min_bridging_amount : ℕ
  pub decimals : ℕ
  pub name : Bytes
  pub symbol : Bytes
  pub uri : Bytes

pub record UpdateFeeConfigDto : Type 0 where
  pub program_id : PublicKey
  pub authority_addr : Bytes
  pub min_operation_fee : ℕ
  pub bridging_fee : ℕ
  pub update_treasury : Bool
  pub new_treasury_address : Bytes

pub record UpdateProgramVersionDto : Type 0 where
  pub program_id : PublicKey
  pub authority_addr : Bytes
  pub version_string : Bytes

pub record SolTransferDto : Type 0 where
  pub sender_public_key : Bytes
  pub receiver_public_key : Bytes
  pub amount : ℕ

pub record SplTransferDto : Type 0 where
  pub sender_public_key : Bytes
  pub receiver_public_key : Bytes
  pub amount : ℕ
  pub mint_token_address : Bytes
  pub token_decimals : ℕ

pub record CreateInstructionDto : Type 0 where
  pub sender_public_key : Bytes
  pub mint_token_address : Bytes
  pub receiver_public_key : Bytes

pub record UpdateMinBridgingAmountDto : Type 0 where
  pub program_id : PublicKey
  pub authority_addr : Bytes
  pub token_id : ℕ
  pub min_bridging_amount : ℕ

-- skyline_program.TokenRegistry
pub record TokenRegistry : Type 0 where
  pub token_id : ℕ
  pub mint : PublicKey
  pub is_lock_unlock : Bool
  pub min_bridging_amount : ℕ
  pub bump : ℕ

-- What the builders take from outside: solana-go with its program packages, the Borsh library with
-- the bindings' decoder, and what the node answers.
pub record Outside : Type 0 where
  pub solana : Solana
  pub encode : Value → Option Bytes
  -- skyline_program.ProgramID
  pub own_id : PublicKey
  pub decode_token_registry : Bytes → Option TokenRegistry
  pub ed25519_program_id : PublicKey
  pub transfer : ℕ → PublicKey → PublicKey → GenericInstruction
  pub token_transfer : ℕ → PublicKey → PublicKey → PublicKey → GenericInstruction
  pub create_associated : PublicKey → PublicKey → PublicKey → GenericInstruction
  pub set_compute_unit_limit : ℕ → Option GenericInstruction
  -- The accounts of a program: their data, unless an entry, its account or its data is nil.
  pub program_accounts : PublicKey → Option (List (Option Bytes))
