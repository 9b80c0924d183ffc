-- ===== src/Wallet/Keys.antt =====
-- What wallet/ and sendtx/ use of solana-go: keys, account metas, instructions, and the functions
-- that the two packages call.
use solana_infrastructure.Base.{ℕ, Bool, List, Option, replicate}
use solana_infrastructure.Base.Bytes.{Bytes, bytes_eq}

-- `solana.PublicKey`, an array of 32 bytes.
abbrev pub PublicKey : Type 0
PublicKey = Bytes

abbrev pub public_key_length : ℕ
public_key_length = 32

-- `solana.PublicKey{}`
abbrev pub zero_key : PublicKey
zero_key = replicate public_key_length 0

-- `PublicKey.IsZero`
abbrev pub is_zero : PublicKey → Bool
is_zero key = bytes_eq key zero_key

-- `solana.AccountMeta`
pub record AccountMeta : Type 0 where
  pub key : PublicKey
  pub is_writable : Bool
  pub is_signer : Bool

-- `solana.NewAccountMeta`
abbrev pub account_meta : PublicKey → Bool → Bool → AccountMeta
account_meta key writable signer = record { key = key; is_writable = writable; is_signer = signer }

-- `solana.GenericInstruction`
pub record GenericInstruction : Type 0 where
  pub program_id : PublicKey
  pub accounts : List AccountMeta
  pub raw : Bytes

-- The functions of solana-go, and its constant keys. A text is its bytes; `none` is an error.
pub record Solana : Type 0 where
  pub from_base58 : Bytes → Option PublicKey
  pub to_base58 : PublicKey → Bytes
  pub is_on_curve : PublicKey → Bool
  -- Without the bump seed, which only the lookup tables' instructions use.
  pub program_address : List Bytes → PublicKey → Option PublicKey
  pub associated_address : PublicKey → PublicKey → Option PublicKey
  pub token_program_id : PublicKey
  pub token_metadata_program_id : PublicKey
  pub system_program_id : PublicKey
  pub associated_token_program_id : PublicKey
  pub rent_key : PublicKey
  pub instructions_key : PublicKey
  pub loader_program_id : PublicKey
