-- ===== src/Wallet/Address.antt =====
-- wallet/address.go: the tests on addresses and keys.
use solana_infrastructure.Base.{
  ℕ, Bool, true, ◌||◌, Result, ok, ◌>>=◌, ◌>>◌, guard, or_fail, map_err, length, ◌==◌, not,
}
use solana_infrastructure.Base.Bytes.{Bytes}
use solana_infrastructure.Wallet.Keys.{PublicKey, public_key_length, is_zero, Solana}

pub data AddressError : Type 0 where
  invalid_address : AddressError
  off_curve : AddressError
  zero_public_key : AddressError
  wrong_length : ℕ → AddressError
  invalid_base58 : AddressError
  no_associated_address : AddressError
  invalid_associated_address : AddressError → AddressError

module _ (S : Solana) where
  unfoldable pub validate_address : Bytes → Bool → Result AddressError (Unit {0})
  validate_address address accept_off_curve = do
    key ← or_fail (S.from_base58 address) invalid_address
    guard (accept_off_curve || S.is_on_curve key) off_curve

  unfoldable pub validate_public_key : PublicKey → Bool → Result AddressError (Unit {0})
  validate_public_key key accept_off_curve = do
    guard (not (is_zero key)) zero_public_key
    guard (length key == public_key_length) (wrong_length (length key))
    decoded ← or_fail (S.from_base58 (S.to_base58 key)) invalid_base58
    guard (accept_off_curve || S.is_on_curve key) off_curve

  unfoldable pub public_key_from_address : Bytes → Result AddressError PublicKey
  public_key_from_address address = or_fail (S.from_base58 address) invalid_address

  unfoldable pub public_key_from_bytes : Bytes → Result AddressError PublicKey
  public_key_from_bytes bytes = do
    guard (length bytes == public_key_length) (wrong_length (length bytes))
    ok bytes

  unfoldable pub find_associated_token_address :
      PublicKey → PublicKey → Result AddressError PublicKey
  unfolding validate_public_key
  find_associated_token_address owner mint = do
    address ← or_fail (S.associated_address owner mint) no_associated_address
    map_err invalid_associated_address (validate_public_key address true)
    ok address
