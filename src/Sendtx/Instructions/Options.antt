-- ===== src/Sendtx/Instructions/Options.antt =====
-- Runs of the options of sendtx/instruction.go on two configs, side by side.
use solana_infrastructure.Base.{
  ℕ, ◌≡◌, refl, sym, ◌∙◌, true, List, [], ◌∷◌, Result, ok, err, panic, ◌>>◌, ap, map_err, arith,
}
use solana_infrastructure.Base.Bytes.{put_uint16}
use solana_infrastructure.Wallet.Keys.{PublicKey, Solana}
use solana_infrastructure.Wallet.Address.{validate_public_key}
use solana_infrastructure.Sendtx.Program.{
  fee_config_seed, program_config_seed, token_id_guard_seed, token_registry_seed,
  validator_set_seed, vault_seed,
}
use solana_infrastructure.Sendtx.Config.{
  invalid_program_id, program_id_not_set, event_authority_seed, metadata_seed, ConfigError,
  InstructionConfig, InstructionConfigOption, apply_options, program_address_of, with_program_id,
  with_program_data_account, with_validator_set_pda, with_vault_pda, with_program_config_pda,
  with_fee_config_pda, with_token_registry_pda, with_metadata_pda, with_event_authority_pda,
  with_token_id_guard_pda,
}
use solana_infrastructure.Sendtx.Monad.{M, options, ◌>>=◌ as ◌>>=m◌}
use solana_infrastructure.Sendtx.Instructions.SideBySide.{SameRun, after, mapped, then_mapped}

module _ {B : Type 0} (k : M B) where
  pub after_none : (c c' : InstructionConfig) → SameRun k c c' → SameRun (after [] k) c c'
  unfolding apply_options options ◌>>=m◌
  after_none c c' h = record { results = h.results }

  after_step :
      {A : Type 0} (o : InstructionConfigOption) (os : List InstructionConfigOption)
      (c c' : InstructionConfig) (r : Result ConfigError A) (g g' : A → InstructionConfig)
      → o c ≡ mapped g r
      → o c' ≡ mapped g' r
      → ((a : A) → SameRun (after os k) (g a) (g' a))
      → SameRun (after (o ∷ os) k) c c'
  unfolding apply_options options ◌>>=m◌
  after_step o os c c' (ok a) g g' p q h = record { results = ground (arith, p, q, (h a).results) }
  after_step o os c c' (err e) g g' p q h = record { results = ground (arith, p, q) }
  after_step o os c c' panic g g' p q h = record { results = ground (arith, p, q) }

  module _ (S : Solana) (os : List InstructionConfigOption) (c c' : InstructionConfig) where
    program_data : PublicKey → Result ConfigError PublicKey
    program_data key =
        map_err program_id_not_set (validate_public_key S key true)
        >> program_address_of S (key ∷ []) S.loader_program_id

    pub after-with_program_id :
        (program : PublicKey)
        → SameRun
            (after os k)
            (record c { program_key = program })
            (record c' { program_key = program })
        → SameRun (after (with_program_id S program ∷ os) k) c c'
    unfolding with_program_id
    after-with_program_id program h =
        after_step (with_program_id S program) os c c'
          (map_err invalid_program_id (validate_public_key S program true))
          (λ _. record c { program_key = program }) (λ _. record c' { program_key = program }) refl
          refl (λ _. h)

    pub after-with_validator_set_pda :
        c.program_key ≡ c'.program_key
        → ((pda : PublicKey)
            → SameRun
                (after os k)
                (record c { validator_set_pda = pda })
                (record c' { validator_set_pda = pda }))
        → SameRun (after (with_validator_set_pda S ∷ os) k) c c'
    unfolding with_validator_set_pda
    after-with_validator_set_pda same h =
        after_step (with_validator_set_pda S) os c c'
          (program_address_of S (validator_set_seed ∷ []) c.program_key)
          (λ pda. record c { validator_set_pda = pda })
          (λ pda. record c' { validator_set_pda = pda }) refl
          (ap
            (λ k.
              mapped (λ pda. record c' { validator_set_pda = pda })
                (program_address_of S (validator_set_seed ∷ []) k))
            (sym same))
          h

    pub after-with_vault_pda :
        c.program_key ≡ c'.program_key
        → ((pda : PublicKey)
            → SameRun (after os k) (record c { vault_pda = pda }) (record c' { vault_pda = pda }))
        → SameRun (after (with_vault_pda S ∷ os) k) c c'
    unfolding with_vault_pda
    after-with_vault_pda same h =
        after_step (with_vault_pda S) os c c' (program_address_of S (vault_seed ∷ []) c.program_key)
          (λ pda. record c { vault_pda = pda }) (λ pda. record c' { vault_pda = pda }) refl
          (ap
            (λ k.
              mapped (λ pda. record c' { vault_pda = pda })
                (program_address_of S (vault_seed ∷ []) k))
            (sym same))
          h

    pub after-with_program_config_pda :
        c.program_key ≡ c'.program_key
        → ((pda : PublicKey)
            → SameRun
                (after os k)
                (record c { program_config_pda = pda })
                (record c' { program_config_pda = pda }))
        → SameRun (after (with_program_config_pda S ∷ os) k) c c'
    unfolding with_program_config_pda
    after-with_program_config_pda same h =
        after_step (with_program_config_pda S) os c c'
          (program_address_of S (program_config_seed ∷ []) c.program_key)
          (λ pda. record c { program_config_pda = pda })
          (λ pda. record c' { program_config_pda = pda }) refl
          (ap
            (λ k.
              mapped (λ pda. record c' { program_config_pda = pda })
                (program_address_of S (program_config_seed ∷ []) k))
            (sym same))
          h

    pub after-with_fee_config_pda :
        c.program_key ≡ c'.program_key
        → ((pda : PublicKey)
            → SameRun
                (after os k)
                (record c { fee_config_pda = pda })
                (record c' { fee_config_pda = pda }))
        → SameRun (after (with_fee_config_pda S ∷ os) k) c c'
    unfolding with_fee_config_pda
    after-with_fee_config_pda same h =
        after_step (with_fee_config_pda S) os c c'
          (program_address_of S (fee_config_seed ∷ []) c.program_key)
          (λ pda. record c { fee_config_pda = pda }) (λ pda. record c' { fee_config_pda = pda })
          refl
          (ap
            (λ k.
              mapped (λ pda. record c' { fee_config_pda = pda })
                (program_address_of S (fee_config_seed ∷ []) k))
            (sym same))
          h

    pub after-with_event_authority_pda :
        c.program_key ≡ c'.program_key
        → ((pda : PublicKey)
            → SameRun
                (after os k)
                (record c { event_authority_pda = pda })
                (record c' { event_authority_pda = pda }))
        → SameRun (after (with_event_authority_pda S ∷ os) k) c c'
    unfolding with_event_authority_pda
    after-with_event_authority_pda same h =
        after_step (with_event_authority_pda S) os c c'
          (program_address_of S (event_authority_seed ∷ []) c.program_key)
          (λ pda. record c { event_authority_pda = pda })
          (λ pda. record c' { event_authority_pda = pda }) refl
          (ap
            (λ k.
              mapped (λ pda. record c' { event_authority_pda = pda })
                (program_address_of S (event_authority_seed ∷ []) k))
            (sym same))
          h

    pub after-with_token_registry_pda :
        (token_id : ℕ)
        → c.program_key ≡ c'.program_key
        → ((pda : PublicKey)
            → SameRun
                (after os k)
                (record c { token_registry_pda = pda })
                (record c' { token_registry_pda = pda }))
        → SameRun (after (with_token_registry_pda S token_id ∷ os) k) c c'
    unfolding with_token_registry_pda
    after-with_token_registry_pda token_id same h =
        after_step (with_token_registry_pda S token_id) os c c'
          (program_address_of S (token_registry_seed ∷ put_uint16 token_id ∷ []) c.program_key)
          (λ pda. record c { token_registry_pda = pda })
          (λ pda. record c' { token_registry_pda = pda }) refl
          (ap
            (λ k.
              mapped (λ pda. record c' { token_registry_pda = pda })
                (program_address_of S (token_registry_seed ∷ put_uint16 token_id ∷ []) k))
            (sym same))
          h

    pub after-with_token_id_guard_pda :
        (token_id : ℕ)
        → c.program_key ≡ c'.program_key
        → ((pda : PublicKey)
            → SameRun
                (after os k)
                (record c { token_id_guard_pda = pda })
                (record c' { token_id_guard_pda = pda }))
        → SameRun (after (with_token_id_guard_pda S token_id ∷ os) k) c c'
    unfolding with_token_id_guard_pda
    after-with_token_id_guard_pda token_id same h =
        after_step (with_token_id_guard_pda S token_id) os c c'
          (program_address_of S (token_id_guard_seed ∷ put_uint16 token_id ∷ []) c.program_key)
          (λ pda. record c { token_id_guard_pda = pda })
          (λ pda. record c' { token_id_guard_pda = pda }) refl
          (ap
            (λ k.
              mapped (λ pda. record c' { token_id_guard_pda = pda })
                (program_address_of S (token_id_guard_seed ∷ put_uint16 token_id ∷ []) k))
            (sym same))
          h

    pub after-with_metadata_pda :
        (mint : PublicKey)
        → c.token_metadata_program_id ≡ c'.token_metadata_program_id
        → ((pda : PublicKey)
            → SameRun
                (after os k)
                (record c { metadata_pda = pda })
                (record c' { metadata_pda = pda }))
        → SameRun (after (with_metadata_pda S mint ∷ os) k) c c'
    unfolding with_metadata_pda
    after-with_metadata_pda mint same h =
        after_step (with_metadata_pda S mint) os c c'
          (program_address_of S (metadata_seed ∷ c.token_metadata_program_id ∷ mint ∷ [])
            c.token_metadata_program_id)
          (λ pda. record c { metadata_pda = pda }) (λ pda. record c' { metadata_pda = pda }) refl
          (ap
            (λ k.
              mapped (λ pda. record c' { metadata_pda = pda })
                (program_address_of S (metadata_seed ∷ k ∷ mint ∷ []) k))
            (sym same))
          h

    pub after-with_program_data_account :
        c.program_key ≡ c'.program_key
        → ((pda : PublicKey)
            → SameRun
                (after os k)
                (record c { program_data_key = pda })
                (record c' { program_data_key = pda }))
        → SameRun (after (with_program_data_account S ∷ os) k) c c'
    unfolding with_program_data_account program_data
    after-with_program_data_account same h =
        after_step (with_program_data_account S) os c c' (program_data c.program_key)
          (λ pda. record c { program_data_key = pda }) (λ pda. record c' { program_data_key = pda })
          (then_mapped (map_err program_id_not_set (validate_public_key S c.program_key true)) _ _)
          (then_mapped (map_err program_id_not_set (validate_public_key S c'.program_key true)) _ _
            ∙ ap (λ k. mapped (λ pda. record c' { program_data_key = pda }) (program_data k))
                (sym same))
          h
