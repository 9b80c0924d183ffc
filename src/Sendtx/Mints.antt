-- ===== src/Sendtx/Mints.antt =====
-- sendtx/tx_sender.go: the registered tokens, and the mints and transfers of a batch with the
-- accounts that the program expects for them.
pub mod Derivation
pub mod Accounts
use solana_infrastructure.Base.{
  ℕ, zero, suc, ◌+◌, ◌%◌, Bool, true, false, List, [], ◌∷◌, ◌++◌, map, Option, none, some, Result,
  ok, err, panic, ◌>>=◌, ◌>>◌, guard, or_fail, map_err, length, get_elem?, ◌==◌,
}
use solana_infrastructure.Base.Bytes.{Bytes, bytes_eq, put_uint16}
use solana_infrastructure.Wallet.Keys.{PublicKey, AccountMeta, account_meta, zero_key, Solana}
use solana_infrastructure.Wallet.Address.{validate_address}
use solana_infrastructure.Sendtx.Program.{token_registry_seed}
use solana_infrastructure.Sendtx.Data.{PayloadReceiver, TransferItem, TokenRegistry, Outside}
use solana_infrastructure.Sendtx.Monad.{
  SendError, invalid_address, receiver, no_registry_address, no_associated_address,
  registry_accounts, empty_registry_account, undecodable_registry, mint_count,
  require_bridge_program_id,
}

-- `map[uint16]TokenRegistry` as a list, in which the first entry of a token counts.
unfoldable pub mint_of : List TokenRegistry → ℕ → PublicKey
mint_of [] token_id = zero_key
mint_of (r ∷ registered) token_id = elim (r.token_id == token_id) [
  | true ↦ r.mint
  | false ↦ mint_of registered token_id
]

-- The answer's accounts put into the map, one by one.
unfoldable pub register_all :
    (Bytes → Option TokenRegistry)
    → List (Option Bytes)
    → List TokenRegistry
    → Result SendError (List TokenRegistry)
register_all decode [] registered = ok registered
register_all decode (none ∷ accounts) registered = err empty_registry_account
register_all decode (some [] ∷ accounts) registered = err empty_registry_account
register_all decode (some (b ∷ bytes) ∷ accounts) registered = elim (decode (b ∷ bytes)) [
  | none ↦ err undecodable_registry
  | some r ↦ register_all decode accounts (r ∷ registered)
]

unfoldable pub get_all_registered_tokens :
    Outside → PublicKey → Result SendError (List TokenRegistry)
unfolding register_all
get_all_registered_tokens O program = do
  require_bridge_program_id program
  accounts ← or_fail (O.program_accounts program) registry_accounts
  register_all O.decode_token_registry accounts []

-- The loop's variables: `mintIndex`, the mints, their token ids and the transfers.
pub record Derived : Type 0 where
  pub mint_index : List (PublicKey × ℕ)
  pub mints : List PublicKey
  pub token_ids : List ℕ
  pub transfers : List TransferItem

abbrev pub nothing_derived : Derived
nothing_derived = record { mint_index = []; mints = []; token_ids = []; transfers = [] }

unfoldable pub index_of : List (PublicKey × ℕ) → PublicKey → Option ℕ
index_of [] key = none
index_of ((k, i) ∷ rest) key = elim (bytes_eq k key) [ true ↦ some i | false ↦ index_of rest key ]

-- `uint8(len(mints))`
abbrev pub next_index : Derived → ℕ
next_index d = length d.mints % 256

abbrev pub item : PayloadReceiver → ℕ → TransferItem
item r i = record { recipient = r.address; mint_index = i; amount = r.token_amount.amount }

-- The rest of a round, by what `mintIndex` has for the mint.
unfoldable pub add_transfer : PayloadReceiver → PublicKey → Derived → Option ℕ → Derived
add_transfer r mint d (some i) = record d { transfers = d.transfers ++ item r i ∷ [] }
add_transfer r mint d none = record {
  mint_index = (mint, next_index d) ∷ d.mint_index;
  mints = d.mints ++ mint ∷ [];
  token_ids = d.token_ids ++ r.token_amount.token_id ∷ [];
  transfers = d.transfers ++ item r (next_index d) ∷ [];
}

-- One round.
unfoldable pub derive_one :
    Solana → List TokenRegistry → PayloadReceiver → Derived → Result SendError Derived
unfolding add_transfer
derive_one S registered r d = do
  map_err (invalid_address receiver) (validate_address S (S.to_base58 r.address) false)
  let mint = mint_of registered r.token_amount.token_id
  ok (add_transfer r mint d (index_of d.mint_index mint))

unfoldable pub derive_all :
    Solana → List TokenRegistry → List PayloadReceiver → Derived → Result SendError Derived
derive_all S registered [] d = ok d
derive_all S registered (r ∷ receivers) d =
    derive_one S registered r d >>= derive_all S registered receivers

unfoldable pub derive_bridge_mints_and_transfers :
    Solana → List PayloadReceiver → List TokenRegistry → Result SendError Derived
derive_bridge_mints_and_transfers S receivers registered =
    derive_all S registered receivers nothing_derived

-- `solana.FindProgramAddress` with the registry's seed, for one token id.
abbrev pub registry_account : Solana → PublicKey → ℕ → Result SendError AccountMeta
registry_account S program token_id = do
  reg ←
      or_fail (S.program_address (token_registry_seed ∷ put_uint16 token_id ∷ []) program)
        no_registry_address
  ok (account_meta reg false false)

abbrev pub associated_account : Solana → PublicKey → PublicKey → Result SendError AccountMeta
associated_account S owner mint = do
  ata ← or_fail (S.associated_address owner mint) no_associated_address
  ok (account_meta ata true false)

-- `mints[tr.MintIndex]`, which panics out of range.
unfoldable pub recipient_account :
    Solana → List PublicKey → TransferItem → Result SendError AccountMeta
recipient_account S mints t = elim (get_elem? mints t.mint_index) [
  | none ↦ panic
  | some mint ↦ associated_account S t.recipient mint
]

-- A loop that appends one account for each element, up to the first error.
unfoldable pub each_account :
    {A : Type 0} → (A → Result SendError AccountMeta) → List A → Result SendError (List AccountMeta)
each_account f [] = ok []
each_account f (x ∷ xs) = do a ← f x; rest ← each_account f xs; ok (a ∷ rest)

unfoldable pub bridge_transaction_remaining_accounts :
    Solana
    → PublicKey
    → PublicKey
    → List PublicKey
    → List ℕ
    → List TransferItem
    → Result SendError (List AccountMeta)
unfolding each_account recipient_account
bridge_transaction_remaining_accounts S vault_pda program mints token_ids transfers = do
  guard (length token_ids == length mints) (mint_count (length token_ids) (length mints))
  registries ← each_account (registry_account S program) token_ids
  recipients ← each_account (recipient_account S mints) transfers
  vaults ← each_account (associated_account S vault_pda) mints
  ok (
      map (λ m. account_meta m true false) mints
      ++ (map (λ (t : TransferItem). account_meta t.recipient false false) transfers
          ++ (registries ++ (recipients ++ vaults))))
