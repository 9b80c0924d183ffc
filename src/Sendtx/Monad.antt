-- ===== src/Sendtx/Monad.antt =====
-- The builders of sendtx/tx_sender.go as functions on the sender's config: a builder returns the
-- config that it leaves, also when it fails.
use solana_infrastructure.Base.{ℕ, Bool, true, false, List, Result, ok, err, panic, map_err}
use solana_infrastructure.Base.Bytes.{Bytes, bytes_eq}
use solana_infrastructure.Wallet.Keys.{PublicKey, Solana, zero_key}
use solana_infrastructure.Wallet.Address.{AddressError, validate_address, public_key_from_address}
use solana_infrastructure.Sendtx.Ed25519.{Ed25519Error}
use solana_infrastructure.Sendtx.Config.{
  ConfigError, InstructionConfig, InstructionConfigOption, apply_options,
}

-- Whose address or key an error is about.
pub data Role : Type 0 where
  sender : Role
  receiver : Role
  treasury : Role
  validator : Role
  adding_validator : Role
  removing_validator : Role
  authority : Role
  token_mint : Role
  vault : Role
  destination : Role

-- The errors without their texts.
pub data SendError : Type 0 where
  program_id_required : SendError
  bridging_fee_too_low : ℕ → SendError
  operation_fee_too_low : ℕ → SendError
  amount_too_low : ℕ → SendError
  amount_zero : SendError
  receiver_count : ℕ → SendError
  invalid_address : Role → AddressError → SendError
  unparsable_address : Role → AddressError → SendError
  invalid_key : Role → AddressError → SendError
  no_token_account : Role → AddressError → SendError
  no_registry_address : SendError
  no_associated_address : SendError
  config_options : ConfigError → SendError
  registry_accounts : SendError
  empty_registry_account : SendError
  undecodable_registry : SendError
  no_config_address : SendError
  config_account : SendError
  no_config_account : SendError
  empty_config_account : SendError
  undecodable_config : SendError
  mint_count : ℕ → ℕ → SendError
  encoding : SendError
  ed25519 : Ed25519Error → SendError
  compute_budget : SendError
  wrong_dto : SendError
  unsupported_type : Bytes → SendError

abbrev pub M {ℓ} : Type ℓ → Type ℓ
M A = InstructionConfig → InstructionConfig × Result SendError A

abbrev pub bind_result {ℓ} : {A : Type ℓ} {B : Type ℓ} → Result SendError A → (A → M B) → M B
bind_result (ok a) f c = f a c
bind_result (err e) f c = (c, err e)
bind_result panic f c = (c, panic)

infixl 5 ◌>>=◌ ◌>>◌
unfoldable pub ◌>>=◌ {ℓ} : {A : Type ℓ} {B : Type ℓ} → M A → (A → M B) → M B
◌>>=◌ m f c = let (c', r) = m c in bind_result r f c'

abbrev pub ◌>>◌ {ℓ} : {B : Type ℓ} → M (Unit {ℓ}) → M B → M B
m >> k = m >>= λ _. k

unfoldable pub return {ℓ} : {A : Type ℓ} → A → M A
return a c = (c, ok a)

-- A step that does not touch the config.
unfoldable pub lift {ℓ} : {A : Type ℓ} → Result SendError A → M A
lift r c = (c, r)

unfoldable pub config : M InstructionConfig
config c = (c, ok c)

abbrev pub demand : Bool → SendError → M (Unit {0})
demand true e c = (c, ok tt)
demand false e c = (c, err e)

-- `if err = txSnd.instructionConfig.ApplyOptions(...)`
unfoldable pub options : List InstructionConfigOption → M (Unit {0})
options os c = let (c', r) = apply_options os c in (c', map_err config_options r)

-- `requireBridgeProgramID`
unfoldable pub require_bridge_program_id : PublicKey → Result SendError (Unit {0})
require_bridge_program_id program = elim (bytes_eq program zero_key) [
  | true ↦ err program_id_required
  | false ↦ ok tt
]

module _ (S : Solana) where
  abbrev pub check_address : Role → Bytes → Bool → M (Unit {0})
  check_address role address off_curve =
      lift (map_err (invalid_address role) (validate_address S address off_curve))

  abbrev pub parse_address : Role → Bytes → M PublicKey
  parse_address role address =
      lift (map_err (unparsable_address role) (public_key_from_address S address))
