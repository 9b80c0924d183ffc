-- ===== src/Store/Blocks.antt =====
-- The block index, the latest block point and the latest finalized block number.
pub mod Lookup
use solana_infrastructure.Base.{
  ℕ, zero, suc, Bool, true, false, List, [], ◌∷◌, Option, none, some, Result, ok, err, panic, leb,
  length, ◌==◌, or_fail, if◌then◌else◌, ◌>>=◌ as ◌⟫=◌,
}
use solana_infrastructure.Base.Bytes.{Bytes, encode_uint64, decode_uint64}
use solana_infrastructure.Store.Bolt.{Bolt, BucketName}
use solana_infrastructure.Store.Codec.{Codec}
use solana_infrastructure.Store.Data.{
  StoreError, BlockPoint, latest_block_point_key, latest_finalized_block_number_key,
}
use solana_infrastructure.Store.Monad.{
  Body, next, ◌>>=◌, ◌>>◌, pure, fail, reading, check, require_bucket, writing, view, update_with,
  StorageTransaction, Stores, run_in,
}

-- `len(v) > 0`, for a value that may be missing.
abbrev pub number_or_zero : Option Bytes → Result StoreError ℕ
number_or_zero none = ok 0
number_or_zero (some v) = if length v == 0 then ok 0 else decode_uint64 v

-- `len(value) != 8`.
abbrev pub stored_number : Option Bytes → Result StoreError ℕ
stored_number none = err StoreError.not_found
stored_number (some v) =
    if length v == 8 then decode_uint64 v else err (StoreError.invalid_length (length v))

module _ (b : Bolt) (c : Codec) where
  open b use {Tx, has_bucket, get, put, commits}

  store_block_fn : BlockPoint → Body Tx (Unit {0})
  store_block_fn p = do
    require_bucket has_bucket BucketName.blocks
    require_bucket has_bucket BucketName.block_hash_to_number
    v ← reading (λ t. or_fail (c.marshal_block_point p) StoreError.marshal_error)
    writing (put BucketName.blocks (encode_uint64 p.block_slot) v)
    writing (put BucketName.block_hash_to_number p.block_hash (encode_uint64 p.block_number))

  unfoldable pub store_block :
      StorageTransaction Tx → BlockPoint → Tx → Result StoreError (Unit {0}) × Stores Tx
  unfolding store_block_fn
  store_block tx p = run_in commits tx (store_block_fn p)

  store_latest_block_point_fn : BlockPoint → Body Tx (Unit {0})
  store_latest_block_point_fn p = do
    require_bucket has_bucket BucketName.latest_block_point
    v ← reading (λ t. or_fail (c.marshal_block_point p) StoreError.marshal_error)
    writing (put BucketName.latest_block_point latest_block_point_key v)

  unfoldable pub store_latest_block_point :
      StorageTransaction Tx → BlockPoint → Tx → Result StoreError (Unit {0}) × Stores Tx
  unfolding store_latest_block_point_fn
  store_latest_block_point tx p = run_in commits tx (store_latest_block_point_fn p)

  unfoldable pub store_latest_finalized_block_number : ℕ → Body Tx (Unit {0})
  store_latest_finalized_block_number n = update_with commits (do
    require_bucket has_bucket BucketName.latest_finalized_block_number
    writing (
        put BucketName.latest_finalized_block_number latest_finalized_block_number_key
          (encode_uint64 n)))

  unfoldable pub get_latest_finalized_block_number : Body Tx ℕ
  get_latest_finalized_block_number = view (do
    require_bucket has_bucket BucketName.latest_finalized_block_number
    reading (λ t.
        number_or_zero
          (get BucketName.latest_finalized_block_number latest_finalized_block_number_key t)))

  point_of : Option Bytes → Result StoreError (Option BlockPoint)
  point_of none = ok none
  point_of (some []) = ok none
  point_of (some (x ∷ v)) =
      or_fail (c.unmarshal_block_point (x ∷ v)) StoreError.unmarshal_error ⟫= λ p. ok (some p)

  -- `Get` on the nil bucket panics.
  unfoldable pub get_latest_block_point : Body Tx (Option BlockPoint)
  unfolding point_of
  get_latest_block_point = view (
      reading (λ t.
        if has_bucket BucketName.latest_block_point t
        then point_of (get BucketName.latest_block_point latest_block_point_key t)
        else panic))

  -- A hit ends the walk, and a miss goes on to the slot below, `rest`.
  walk_step : Option Bytes → Result StoreError Bytes → Result StoreError Bytes
  walk_step none rest = rest
  walk_step (some v) rest =
      or_fail (c.unmarshal_block_point v) StoreError.unmarshal_error ⟫= λ p. ok p.block_hash

  -- The loop of `GetBlockhashBySlot`, from slot `s` down to 0.
  unfoldable pub walk_back : ℕ → Tx → Result StoreError Bytes
  unfolding walk_step
  walk_back zero t =
      walk_step (get BucketName.blocks (encode_uint64 0) t) (err StoreError.not_found)
  walk_back (suc s) t =
      let below = walk_back s t in walk_step (get BucketName.blocks (encode_uint64 (suc s)) t) below

  unfoldable pub get_blockhash_by_slot : ℕ → Body Tx Bytes
  get_blockhash_by_slot slot = do
    head ← get_latest_block_point
    point ← reading (λ t. or_fail head StoreError.no_chain_head)
    check (leb slot point.block_slot) (StoreError.beyond_chain_head slot)
    view (do require_bucket has_bucket BucketName.blocks; reading (walk_back slot))

  unfoldable pub get_block_number_by_blockhash : Bytes → Body Tx ℕ
  get_block_number_by_blockhash hash = view (do
    require_bucket has_bucket BucketName.block_hash_to_number
    reading (λ t. stored_number (get BucketName.block_hash_to_number hash t)))
