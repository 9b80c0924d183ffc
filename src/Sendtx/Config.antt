-- ===== src/Sendtx/Config.antt =====
-- sendtx/instruction.go: the keys that the instructions' builders share, and the options that set
-- them.
use solana_infrastructure.Base.{
  ℕ, true, List, [], ◌∷◌, Result, ok, err, panic, ◌>>=◌, ◌>>◌, or_fail, map_err,
}
use solana_infrastructure.Base.Bytes.{Bytes, put_uint16}
use solana_infrastructure.Wallet.Keys.{PublicKey, zero_key, Solana}
use solana_infrastructure.Wallet.Address.{AddressError, validate_public_key}
use solana_infrastructure.Sendtx.Program.{
  fee_config_seed, program_config_seed, token_id_guard_seed, token_registry_seed,
  validator_set_seed, vault_seed,
}

pub data ConfigError : Type 0 where
  invalid_program_id : AddressError → ConfigError
  program_id_not_set : AddressError → ConfigError
  no_program_address : ConfigError
  invalid_program_address : AddressError → ConfigError

pub record InstructionConfig : Type 0 where
  pub program_key : PublicKey
  pub program_data_key : PublicKey
  pub validator_set_pda : PublicKey
  pub vault_pda : PublicKey
  pub fee_config_pda : PublicKey
  pub program_config_pda : PublicKey
  pub token_registry_pda : PublicKey
  pub token_id_guard_pda : PublicKey
  pub metadata_pda : PublicKey
  pub event_authority_pda : PublicKey
  pub token_program_id : PublicKey
  pub token_metadata_program_id : PublicKey
  pub system_program_id : PublicKey
  pub spl_associated_token_account_program_id : PublicKey
  pub rent_pubkey : PublicKey

-- An option changes the config, or fails and leaves it.
abbrev pub InstructionConfigOption : Type 0
InstructionConfigOption = InstructionConfig → Result ConfigError InstructionConfig

-- "__event_authority"
abbrev pub event_authority_seed : Bytes
event_authority_seed =
    95 ∷ 95 ∷ 101 ∷ 118 ∷ 101 ∷ 110 ∷ 116 ∷ 95 ∷ 97 ∷ 117 ∷ 116 ∷ 104 ∷ 111 ∷ 114 ∷ 105 ∷ 116 ∷ 121
    ∷ []

-- "metadata"
abbrev pub metadata_seed : Bytes
metadata_seed = 109 ∷ 101 ∷ 116 ∷ 97 ∷ 100 ∷ 97 ∷ 116 ∷ 97 ∷ []

-- The options up to the first that fails; those before it have changed the config.
unfoldable pub apply_options :
    List InstructionConfigOption
    → InstructionConfig
    → InstructionConfig × Result ConfigError (Unit {0})
apply_options [] c = (c, ok tt)
apply_options (o ∷ os) c = elim (o c) [
  | ok c' ↦ apply_options os c'
  | err e ↦ (c, err e)
  | panic ↦ (c, panic)
]

module _ (S : Solana) where
  -- `NewInstructionConfig` with no options.
  abbrev pub new_instruction_config : InstructionConfig
  new_instruction_config = record {
    program_key = zero_key;
    program_data_key = zero_key;
    validator_set_pda = zero_key;
    vault_pda = zero_key;
    fee_config_pda = zero_key;
    program_config_pda = zero_key;
    token_registry_pda = zero_key;
    token_id_guard_pda = zero_key;
    metadata_pda = zero_key;
    event_authority_pda = zero_key;
    token_program_id = S.token_program_id;
    token_metadata_program_id = S.token_metadata_program_id;
    system_program_id = S.system_program_id;
    spl_associated_token_account_program_id = S.associated_token_program_id;
    rent_pubkey = S.rent_key;
  }

  -- An address of a program, from `solana.FindProgramAddress`, that is not the zero key.
  unfoldable pub program_address_of : List Bytes → PublicKey → Result ConfigError PublicKey
  program_address_of seeds program = do
    pda ← or_fail (S.program_address seeds program) no_program_address
    map_err invalid_program_address (validate_public_key S pda true)
    ok pda

  unfoldable pub derive_pda : List Bytes → InstructionConfig → Result ConfigError PublicKey
  unfolding program_address_of
  derive_pda seeds c = program_address_of seeds c.program_key

  unfoldable pub with_program_id : PublicKey → InstructionConfigOption
  with_program_id program c = do
    map_err invalid_program_id (validate_public_key S program true)
    ok (record c { program_key = program })

  unfoldable pub with_program_data_account : InstructionConfigOption
  unfolding program_address_of
  with_program_data_account c = do
    map_err program_id_not_set (validate_public_key S c.program_key true)
    pda ← program_address_of (c.program_key ∷ []) S.loader_program_id
    ok (record c { program_data_key = pda })

  unfoldable pub with_validator_set_pda : InstructionConfigOption
  unfolding derive_pda
  with_validator_set_pda c = do
    pda ← derive_pda (validator_set_seed ∷ []) c
    ok (record c { validator_set_pda = pda })

  unfoldable pub with_vault_pda : InstructionConfigOption
  unfolding derive_pda
  with_vault_pda c = do pda ← derive_pda (vault_seed ∷ []) c; ok (record c { vault_pda = pda })

  unfoldable pub with_program_config_pda : InstructionConfigOption
  unfolding derive_pda
  with_program_config_pda c = do
    pda ← derive_pda (program_config_seed ∷ []) c
    ok (record c { program_config_pda = pda })

  unfoldable pub with_fee_config_pda : InstructionConfigOption
  unfolding derive_pda
  with_fee_config_pda c = do
    pda ← derive_pda (fee_config_seed ∷ []) c
    ok (record c { fee_config_pda = pda })

  unfoldable pub with_token_registry_pda : ℕ → InstructionConfigOption
  unfolding derive_pda
  with_token_registry_pda token_id c = do
    pda ← derive_pda (token_registry_seed ∷ put_uint16 token_id ∷ []) c
    ok (record c { token_registry_pda = pda })

  unfoldable pub with_metadata_pda : PublicKey → InstructionConfigOption
  unfolding program_address_of
  with_metadata_pda mint c = do
    pda ←
        program_address_of (metadata_seed ∷ c.token_metadata_program_id ∷ mint ∷ [])
          c.token_metadata_program_id
    ok (record c { metadata_pda = pda })

  unfoldable pub with_event_authority_pda : InstructionConfigOption
  unfolding derive_pda
  with_event_authority_pda c = do
    pda ← derive_pda (event_authority_seed ∷ []) c
    ok (record c { event_authority_pda = pda })

  unfoldable pub with_token_id_guard_pda : ℕ → InstructionConfigOption
  unfolding derive_pda
  with_token_id_guard_pda token_id c = do
    pda ← derive_pda (token_id_guard_seed ∷ put_uint16 token_id ∷ []) c
    ok (record c { token_id_guard_pda = pda })
