-- ===== src/Sendtx/Instructions/Kept.antt =====
-- The builders of sendtx/tx_sender.go leave the library's program ids in the shared config alone.
use solana_infrastructure.Base.{
  ℕ, ◌≡◌, refl, sym, ◌∙◌, ap, Bool, true, false, List, [], ◌∷◌, Result, ok, err, panic, ◌>>◌,
  map_err, ok-injective, subst,
}
use solana_infrastructure.Base.Bytes.{put_uint16}
use solana_infrastructure.Wallet.Keys.{PublicKey, Solana}
use solana_infrastructure.Wallet.Address.{validate_public_key}
use solana_infrastructure.Sendtx.Program.{
  fee_config_seed, program_config_seed, token_id_guard_seed, token_registry_seed,
  validator_set_seed, vault_seed,
}
use solana_infrastructure.Sendtx.Config.{
  invalid_program_id, program_id_not_set, event_authority_seed, metadata_seed, ConfigError,
  InstructionConfig, InstructionConfigOption, apply_options, program_address_of, derive_pda,
  with_program_id, with_program_data_account, with_validator_set_pda, with_vault_pda,
  with_program_config_pda, with_fee_config_pda, with_token_registry_pda, with_metadata_pda,
  with_event_authority_pda, with_token_id_guard_pda,
}
use solana_infrastructure.Sendtx.Monad.{
  M, SendError, demand, options, lift, config, return, bind_result, ◌>>=◌ as ◌>>=m◌, ◌>>◌ as ◌>>m◌,
}
use solana_infrastructure.Sendtx.Instructions.SideBySide.{mapped, then_mapped}
use solana_infrastructure.Sendtx.Instructions.Confined.{with_leftovers}

-- A step changes only fields that the options set.
pub record Keeps {A : Type 0} (m : M A) : Type 0 where
  pub keeps : (c : InstructionConfig) → with_leftovers c (m c).0 ≡ (m c).0

pub record KeepsOption (o : InstructionConfigOption) : Type 0 where
  pub kept : (c c' : InstructionConfig) → o c ≡ ok c' → with_leftovers c c' ≡ c'

pub trans :
    (c d e : InstructionConfig)
    → with_leftovers c d ≡ d
    → with_leftovers d e ≡ e
    → with_leftovers c e ≡ e
trans c d e h k = ap (λ x. with_leftovers x e) h ∙ k

pub Keeps-lift : {A : Type 0} (r : Result SendError A) → Keeps (lift r)
unfolding lift
Keeps-lift r = record { keeps = λ c. refl }

pub Keeps-return : {A : Type 0} (a : A) → Keeps (return a)
unfolding return
Keeps-return a = record { keeps = λ c. refl }

pub Keeps-config : Keeps config
unfolding config
Keeps-config = record { keeps = λ c. refl }

pub Keeps-demand : (b : Bool) (e : SendError) → Keeps (demand b e)
Keeps-demand true e = record { keeps = λ c. refl }
Keeps-demand false e = record { keeps = λ c. refl }

after_result :
    {A B : Type 0} (f : A → M B) (c : InstructionConfig)
    (x : InstructionConfig × Result SendError A)
    → with_leftovers c x.0 ≡ x.0
    → ((a : A) → Keeps (f a))
    → with_leftovers c (bind_result x.1 f x.0).0 ≡ (bind_result x.1 f x.0).0
after_result f c (d, ok a) h k = trans c d (f a d).0 h ((k a).keeps d)
after_result f c (d, err e) h k = h
after_result f c (d, panic) h k = h

pub Keeps-bind :
    {A B : Type 0} (m : M A) (f : A → M B) → Keeps m → ((a : A) → Keeps (f a)) → Keeps (m >>=m f)
unfolding ◌>>=m◌
Keeps-bind m f h k = record { keeps = λ c. after_result f c (m c) (h.keeps c) k }

pub Keeps-then : {B : Type 0} (m : M _) (k : M B) → Keeps m → Keeps k → Keeps (m >>m k)
Keeps-then m k h g = Keeps-bind m (λ _. k) h (λ _. g)

pub Keeps-options_none : Keeps (options [])
unfolding options apply_options
Keeps-options_none = record { keeps = λ c. refl }

abbrev next_state :
    List InstructionConfigOption
    → InstructionConfig
    → Result ConfigError InstructionConfig
    → InstructionConfig × Result ConfigError (Unit {0})
next_state os c r = elim r [ ok c' ↦ apply_options os c' | err e ↦ (c, err e) | panic ↦ (c, panic) ]

next_option :
    (os : List InstructionConfigOption) (c : InstructionConfig)
    (r : Result ConfigError InstructionConfig)
    → ((c' : InstructionConfig) → r ≡ ok c' → with_leftovers c c' ≡ c')
    → Keeps (options os)
    → with_leftovers c (next_state os c r).0 ≡ (next_state os c r).0
unfolding options
next_option os c (ok d) h k = trans c d (apply_options os d).0 (h d refl) (k.keeps d)
next_option os c (err x) h k = refl
next_option os c panic h k = refl

pub Keeps-options :
    (o : InstructionConfigOption) (os : List InstructionConfigOption)
    → KeepsOption o
    → Keeps (options os)
    → Keeps (options (o ∷ os))
unfolding options apply_options
Keeps-options o os h k = record { keeps = λ c. next_option os c (o c) (h.kept c) k }

mapped_keeps :
    {A : Type 0} (c c' : InstructionConfig) (g : A → InstructionConfig) (r : Result ConfigError A)
    → ((a : A) → with_leftovers c (g a) ≡ g a)
    → mapped g r ≡ ok c'
    → with_leftovers c c' ≡ c'
mapped_keeps c c' g (ok a) h e = subst (λ x. with_leftovers c x ≡ x) (ok-injective e) (h a)
mapped_keeps c c' g (err x) h e = absurd (cc)
mapped_keeps c c' g panic h e = absurd (cc)

module _ (S : Solana) where
  pub with_program_id-kept : (program : PublicKey) → KeepsOption (with_program_id S program)
  unfolding with_program_id
  with_program_id-kept program = record {
    kept = λ c c'.
        mapped_keeps c c' (λ _. record c { program_key = program })
          (map_err invalid_program_id (validate_public_key S program true)) (λ _. refl);
  }

  pub with_program_data_account-kept : KeepsOption (with_program_data_account S)
  unfolding with_program_data_account
  with_program_data_account-kept = record {
    kept = λ c c' e.
        mapped_keeps c c' (λ pda. record c { program_data_key = pda })
          (map_err program_id_not_set (validate_public_key S c.program_key true)
            >> program_address_of S (c.program_key ∷ []) S.loader_program_id)
          (λ _. refl)
          (sym (
              then_mapped (map_err program_id_not_set (validate_public_key S c.program_key true)) _
                _)
            ∙ e);
  }

  pub with_validator_set_pda-kept : KeepsOption (with_validator_set_pda S)
  unfolding with_validator_set_pda derive_pda
  with_validator_set_pda-kept = record {
    kept = λ c c'.
        mapped_keeps c c' (λ pda. record c { validator_set_pda = pda })
          (program_address_of S (validator_set_seed ∷ []) c.program_key) (λ _. refl);
  }

  pub with_vault_pda-kept : KeepsOption (with_vault_pda S)
  unfolding with_vault_pda derive_pda
  with_vault_pda-kept = record {
    kept = λ c c'.
        mapped_keeps c c' (λ pda. record c { vault_pda = pda })
          (program_address_of S (vault_seed ∷ []) c.program_key) (λ _. refl);
  }

  pub with_program_config_pda-kept : KeepsOption (with_program_config_pda S)
  unfolding with_program_config_pda derive_pda
  with_program_config_pda-kept = record {
    kept = λ c c'.
        mapped_keeps c c' (λ pda. record c { program_config_pda = pda })
          (program_address_of S (program_config_seed ∷ []) c.program_key) (λ _. refl);
  }

  pub with_fee_config_pda-kept : KeepsOption (with_fee_config_pda S)
  unfolding with_fee_config_pda derive_pda
  with_fee_config_pda-kept = record {
    kept = λ c c'.
        mapped_keeps c c' (λ pda. record c { fee_config_pda = pda })
          (program_address_of S (fee_config_seed ∷ []) c.program_key) (λ _. refl);
  }

  pub with_event_authority_pda-kept : KeepsOption (with_event_authority_pda S)
  unfolding with_event_authority_pda derive_pda
  with_event_authority_pda-kept = record {
    kept = λ c c'.
        mapped_keeps c c' (λ pda. record c { event_authority_pda = pda })
          (program_address_of S (event_authority_seed ∷ []) c.program_key) (λ _. refl);
  }

  pub with_token_registry_pda-kept : (id : ℕ) → KeepsOption (with_token_registry_pda S id)
  unfolding with_token_registry_pda derive_pda
  with_token_registry_pda-kept id = record {
    kept = λ c c'.
        mapped_keeps c c' (λ pda. record c { token_registry_pda = pda })
          (program_address_of S (token_registry_seed ∷ put_uint16 id ∷ []) c.program_key)
          (λ _. refl);
  }

  pub with_token_id_guard_pda-kept : (id : ℕ) → KeepsOption (with_token_id_guard_pda S id)
  unfolding with_token_id_guard_pda derive_pda
  with_token_id_guard_pda-kept id = record {
    kept = λ c c'.
        mapped_keeps c c' (λ pda. record c { token_id_guard_pda = pda })
          (program_address_of S (token_id_guard_seed ∷ put_uint16 id ∷ []) c.program_key)
          (λ _. refl);
  }

  pub with_metadata_pda-kept : (mint : PublicKey) → KeepsOption (with_metadata_pda S mint)
  unfolding with_metadata_pda
  with_metadata_pda-kept mint = record {
    kept = λ c c'.
        mapped_keeps c c' (λ pda. record c { metadata_pda = pda })
          (program_address_of S (metadata_seed ∷ c.token_metadata_program_id ∷ mint ∷ [])
            c.token_metadata_program_id)
          (λ _. refl);
  }
