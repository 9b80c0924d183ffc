-- ===== src/Sendtx/Program.antt =====
-- sendtx/skyline_program/: the instructions of the bridge's program, as the generated bindings
-- build them.
pub mod Bridging
pub mod Admin
use solana_infrastructure.Base.{ℕ, Bool, true, false, List, [], ◌∷◌, ◌++◌, Option, none, some}
use solana_infrastructure.Base.Bytes.{Bytes}
use solana_infrastructure.Wallet.Keys.{PublicKey, AccountMeta, GenericInstruction}

-- What one call of the Borsh encoder writes.
pub data Value : Type 0 where
  uint8 : ℕ → Value
  uint16 : ℕ → Value
  uint64 : ℕ → Value
  text : Bytes → Value
  keys : List PublicKey → Value
  flag : Bool → Value
  option_tag : Bool → Value

-- A parameter behind a pointer.
abbrev pub optional : {A : Type 0} → (A → Value) → Option A → List Value
optional encoding none = option_tag false ∷ []
optional encoding (some a) = option_tag true ∷ encoding a ∷ []

abbrev pub fee_config_seed : Bytes
fee_config_seed = 102 ∷ 101 ∷ 101 ∷ 95 ∷ 99 ∷ 111 ∷ 110 ∷ 102 ∷ 105 ∷ 103 ∷ []

abbrev pub program_config_seed : Bytes
program_config_seed =
    112 ∷ 114 ∷ 111 ∷ 103 ∷ 114 ∷ 97 ∷ 109 ∷ 95 ∷ 99 ∷ 111 ∷ 110 ∷ 102 ∷ 105 ∷ 103 ∷ []

abbrev pub token_id_guard_seed : Bytes
token_id_guard_seed =
    116 ∷ 111 ∷ 107 ∷ 101 ∷ 110 ∷ 95 ∷ 105 ∷ 100 ∷ 95 ∷ 103 ∷ 117 ∷ 97 ∷ 114 ∷ 100 ∷ []

abbrev pub token_registry_seed : Bytes
token_registry_seed =
    116 ∷ 111 ∷ 107 ∷ 101 ∷ 110 ∷ 95 ∷ 114 ∷ 101 ∷ 103 ∷ 105 ∷ 115 ∷ 116 ∷ 114 ∷ 121 ∷ []

abbrev pub validator_set_seed : Bytes
validator_set_seed = 118 ∷ 97 ∷ 108 ∷ 105 ∷ 100 ∷ 97 ∷ 116 ∷ 111 ∷ 114 ∷ 45 ∷ 115 ∷ 101 ∷ 116 ∷ []

abbrev pub vault_seed : Bytes
vault_seed = 118 ∷ 97 ∷ 117 ∷ 108 ∷ 116 ∷ []

abbrev pub instruction_bridge_request : Bytes
instruction_bridge_request = 174 ∷ 128 ∷ 16 ∷ 189 ∷ 59 ∷ 127 ∷ 134 ∷ 232 ∷ []

abbrev pub instruction_bridge_transaction : Bytes
instruction_bridge_transaction = 73 ∷ 26 ∷ 119 ∷ 117 ∷ 56 ∷ 168 ∷ 209 ∷ 98 ∷ []

abbrev pub instruction_bridge_vsu : Bytes
instruction_bridge_vsu = 251 ∷ 55 ∷ 181 ∷ 69 ∷ 163 ∷ 28 ∷ 202 ∷ 10 ∷ []

abbrev pub instruction_hot_wallet_increment : Bytes
instruction_hot_wallet_increment = 60 ∷ 140 ∷ 196 ∷ 63 ∷ 147 ∷ 195 ∷ 18 ∷ 90 ∷ []

abbrev pub instruction_initialize : Bytes
instruction_initialize = 175 ∷ 175 ∷ 109 ∷ 31 ∷ 13 ∷ 152 ∷ 155 ∷ 237 ∷ []

abbrev pub instruction_register_lock_unlock_token : Bytes
instruction_register_lock_unlock_token = 102 ∷ 136 ∷ 172 ∷ 174 ∷ 201 ∷ 166 ∷ 219 ∷ 233 ∷ []

abbrev pub instruction_register_mint_burn_token : Bytes
instruction_register_mint_burn_token = 20 ∷ 106 ∷ 92 ∷ 113 ∷ 59 ∷ 41 ∷ 253 ∷ 128 ∷ []

abbrev pub instruction_update_fee_config : Bytes
instruction_update_fee_config = 104 ∷ 184 ∷ 103 ∷ 242 ∷ 88 ∷ 151 ∷ 107 ∷ 20 ∷ []

abbrev pub instruction_update_min_bridging_amount : Bytes
instruction_update_min_bridging_amount = 154 ∷ 223 ∷ 132 ∷ 123 ∷ 178 ∷ 94 ∷ 16 ∷ 41 ∷ []

abbrev pub instruction_update_program_version : Bytes
instruction_update_program_version = 235 ∷ 132 ∷ 215 ∷ 225 ∷ 213 ∷ 43 ∷ 43 ∷ 38 ∷ []

-- `encode` is the library's Borsh encoder, and `own_id` the program id of the bindings.
module _ (encode : Value → Option Bytes) (own_id : PublicKey) where
  unfoldable pub encode_all : List Value → Option Bytes
  encode_all [] = some []
  encode_all (v ∷ vs) = elim (encode v) [
    | none ↦ none
    | some b ↦ elim (encode_all vs) [ none ↦ none | some rest ↦ some (b ++ rest) ]
  ]

  -- The discriminator and the parameters, with the accounts.
  unfoldable pub instruction : Bytes → List Value → List AccountMeta → Option GenericInstruction
  instruction discriminator params accounts = elim (encode_all params) [
    | none ↦ none
    | some b ↦ some (record { program_id = own_id; accounts = accounts; raw = discriminator ++ b })
  ]
