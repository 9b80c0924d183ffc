-- ===== src/Wallet/Tests.antt =====
-- Inputs and tests of the modules of wallet/.
use solana_infrastructure.Base.{ℕ, ◌≡◌, refl, List, [], ◌∷◌, Option, none, some, ok, arith}
use solana_infrastructure.Base.Bytes.{Bytes, bytes_eq}
use solana_infrastructure.Wallet.Keys.{PublicKey, GenericInstruction}
use solana_infrastructure.Wallet.Extend.{
  table_keys, build_extend_lookup_table_instruction, new_extend_instructions,
}
use solana_infrastructure.Wallet.Extend.Added.{Extends, new_extend_instructions-Extends}
use solana_infrastructure.Wallet.Resolver.{
  Tables, entries_of, look_up, Fetch, fetch_one, fetch_all, finish, resolve, remove, remove_all,
  invalidate,
}
use solana_infrastructure.Wallet.Resolver.Faithful.{IsFaithful}
use solana_infrastructure.Wallet.Resolver.Cache.{Resolves, resolve-Resolves}

abbrev key : ℕ → PublicKey
key n = n ∷ []

abbrev no_derivation : List Bytes → Option (PublicKey × ℕ)
no_derivation seeds = none

-- The table has keys 1 and 2.
abbrev sample_fetch : Fetch
sample_fetch addr = some (some (key 1 ∷ key 2 ∷ []))

abbrev wanted : List PublicKey
wanted = key 2 ∷ key 3 ∷ key 3 ∷ key 4 ∷ []

new_extend_instructions-Extends_example :
    (is : List GenericInstruction) × (new_extend_instructions
        (key 50)
        (key 51)
        no_derivation
        (some sample_fetch)
        (key 60)
        (key 61)
        (key 62)
        wanted
      ≡ ok is)
    × Extends
        (build_extend_lookup_table_instruction
          (key 50)
          (key 51)
          no_derivation
          (key 60)
          (key 61)
          (key 62))
        (table_keys (some (key 1 ∷ key 2 ∷ [])))
        wanted
        is
new_extend_instructions-Extends_example =
    new_extend_instructions-Extends (key 50) (key 51) no_derivation sample_fetch (key 60) (key 61)
      (key 62) wanted (some (key 1 ∷ key 2 ∷ [])) refl

-- One table is in the cache, the other is fetched.
abbrev sample_cache : Tables
sample_cache = (key 7, key 1 ∷ key 2 ∷ []) ∷ []

sample-IsFaithful : IsFaithful sample_fetch sample_cache
unfolding entries_of
sample-IsFaithful = record { agrees = λ addr keys e. ground (arith, e) }

abbrev sample_answer : Tables
sample_answer = (key 8, key 1 ∷ key 2 ∷ []) ∷ (key 7, key 1 ∷ key 2 ∷ []) ∷ []

sample_resolves : (resolve sample_fetch sample_cache (key 7 ∷ key 8 ∷ [])).1 ≡ ok sample_answer
unfolding resolve look_up entries_of fetch_all fetch_one finish bytes_eq
sample_resolves = refl

resolve-Resolves_example :
    Resolves sample_fetch
      (resolve sample_fetch sample_cache (key 7 ∷ key 8 ∷ [])).0
      sample_answer
      (key 7 ∷ key 8 ∷ [])
resolve-Resolves_example =
    resolve-Resolves sample_fetch sample_cache (key 7 ∷ key 8 ∷ []) sample_answer sample-IsFaithful
      sample_resolves

-- After an invalidation the table is fetched again.
sample_invalidated : invalidate sample_cache (key 7 ∷ []) ≡ []
unfolding invalidate remove_all remove bytes_eq
sample_invalidated = refl
