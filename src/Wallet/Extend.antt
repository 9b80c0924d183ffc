-- ===== src/Wallet/Extend.antt =====
-- wallet/alt_admin.go: the instructions of the address lookup table program.
pub mod Added
use solana_infrastructure.Base.{
  ℕ, zero, suc, ◌/◌, ◌%◌, ◌^◌, ◌*◌, Bool, true, false, ◌||◌, List, [], ◌∷◌, ◌++◌, map, Option, none,
  some, Result, ok, err, ◌>>=◌, or_fail, length, take, drop,
}
use solana_infrastructure.Base.Bytes.{Bytes, bytes_eq}
use solana_infrastructure.Wallet.Keys.{PublicKey, GenericInstruction, account_meta}

pub data AltError : Type 0 where
  no_table_address : AltError
  no_fetcher : AltError
  fetch_failed : AltError

abbrev pub extend_lookup_table_max_per_ix : ℕ
extend_lookup_table_max_per_ix = 20

-- `binary.LittleEndian.AppendUint32`
abbrev pub uint32_bytes : ℕ → Bytes
uint32_bytes v = (v % 256) ∷ (v / 2 ^ 8 % 256) ∷ (v / 2 ^ 16 % 256) ∷ (v / 2 ^ 24 % 256) ∷ []

-- `binary.LittleEndian.AppendUint64`
abbrev pub uint64_bytes : ℕ → Bytes
uint64_bytes v = uint32_bytes v ++ uint32_bytes (v / 2 ^ 32)

abbrev pub alt_ix_create : ℕ
alt_ix_create = 0

abbrev pub alt_ix_freeze : ℕ
alt_ix_freeze = 1

abbrev pub alt_ix_extend : ℕ
alt_ix_extend = 2

abbrev pub alt_ix_deactivate : ℕ
alt_ix_deactivate = 3

abbrev pub alt_ix_close : ℕ
alt_ix_close = 4

unfoldable pub concat_keys : List PublicKey → Bytes
concat_keys [] = []
concat_keys (k ∷ keys) = k ++ concat_keys keys

unfoldable pub contains : List PublicKey → PublicKey → Bool
contains [] key = false
contains (k ∷ keys) key = bytes_eq k key || contains keys key

-- The loop over `addresses`: those that are not yet in `seen`, which grows.
unfoldable pub to_add : List PublicKey → List PublicKey → List PublicKey
to_add seen [] = []
to_add seen (key ∷ addresses) = elim (contains seen key) [
  | true ↦ to_add seen addresses
  | false ↦ key ∷ to_add (key ∷ seen) addresses
]

-- The slices `toAdd[start:end]`, at most as many as the fuel.
unfoldable pub chunks : ℕ → List PublicKey → List (List PublicKey)
chunks zero keys = []
chunks (suc fuel) [] = []
chunks (suc fuel) (k ∷ keys) =
    take extend_lookup_table_max_per_ix (k ∷ keys)
    ∷ chunks fuel (drop extend_lookup_table_max_per_ix (k ∷ keys))

-- The addresses in the table, none if the fetcher returns no state.
abbrev pub table_keys : Option (List PublicKey) → List PublicKey
table_keys none = []
table_keys (some keys) = keys

-- `alt_id` is the program's id and `system_id` the system program's; `table_address` is
-- `solana.FindProgramAddress` under the former, with the bump seed.
module _ (alt_id system_id : PublicKey) (table_address : List Bytes → Option (PublicKey × ℕ)) where
  unfoldable pub derive_address_lookup_table_address :
      PublicKey → ℕ → Result AltError (PublicKey × ℕ)
  derive_address_lookup_table_address authority recent_slot =
      or_fail (table_address (authority ∷ uint64_bytes recent_slot ∷ [])) no_table_address

  unfoldable pub new_create_instruction :
      PublicKey → PublicKey → ℕ → Result AltError (GenericInstruction × PublicKey)
  unfolding derive_address_lookup_table_address
  new_create_instruction authority payer recent_slot = do
    derived ← derive_address_lookup_table_address authority recent_slot
    ok (
      record {
        program_id = alt_id;
        accounts =
            account_meta derived.0 true false
            ∷ account_meta authority false true
            ∷ account_meta payer true true
            ∷ account_meta system_id false false
            ∷ [];
        raw = uint32_bytes alt_ix_create ++ (uint64_bytes recent_slot ++ derived.1 ∷ []);
      },
      derived.0,
    )

  unfoldable pub new_freeze_instruction : PublicKey → PublicKey → GenericInstruction
  new_freeze_instruction alt_address authority = record {
    program_id = alt_id;
    accounts = account_meta alt_address true false ∷ account_meta authority false true ∷ [];
    raw = uint32_bytes alt_ix_freeze;
  }

  unfoldable pub new_deactivate_instruction : PublicKey → PublicKey → GenericInstruction
  new_deactivate_instruction alt_address authority = record {
    program_id = alt_id;
    accounts = account_meta alt_address true false ∷ account_meta authority false true ∷ [];
    raw = uint32_bytes alt_ix_deactivate;
  }

  unfoldable pub new_close_instruction : PublicKey → PublicKey → PublicKey → GenericInstruction
  new_close_instruction alt_address authority recipient = record {
    program_id = alt_id;
    accounts =
        account_meta alt_address true false
        ∷ account_meta authority false true
        ∷ account_meta recipient true false
        ∷ [];
    raw = uint32_bytes alt_ix_close;
  }

  unfoldable pub build_extend_lookup_table_instruction :
      PublicKey → PublicKey → PublicKey → List PublicKey → GenericInstruction
  build_extend_lookup_table_instruction alt_address authority payer addresses = record {
    program_id = alt_id;
    accounts =
        account_meta alt_address true false
        ∷ account_meta authority false true
        ∷ account_meta payer true true
        ∷ account_meta system_id false false
        ∷ [];
    raw = uint32_bytes alt_ix_extend ++ (uint64_bytes (length addresses) ++ concat_keys addresses);
  }

  -- A fetcher of none is the nil fetcher; it returns the state's addresses, or an error.
  unfoldable pub new_extend_instructions :
      Option (PublicKey → Option (Option (List PublicKey)))
      → PublicKey
      → PublicKey
      → PublicKey
      → List PublicKey
      → Result AltError (List GenericInstruction)
  new_extend_instructions fetcher alt_address authority payer addresses = do
    fetch ← or_fail fetcher no_fetcher
    state ← or_fail (fetch alt_address) fetch_failed
    let new = to_add (table_keys state) addresses
    ok (
        map (build_extend_lookup_table_instruction alt_address authority payer)
          (chunks (length new) new))
