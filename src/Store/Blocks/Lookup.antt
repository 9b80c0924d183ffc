-- ===== src/Store/Blocks/Lookup.antt =====
-- What `GetBlockhashBySlot` finds, and what `StoreBlock` makes it find.
use solana_infrastructure.Base.{
  ℕ, zero, suc, ◌<◌, ◌≤◌, ◌≡◌, ◌≢◌, ◌∙◌, subst, true, [], Option, none, some, Result, ok, err, ap,
  length, append-nil, arith,
}
use native.Mathlib.Decide.{ℕ_discrete}
use solana_infrastructure.Base.Bytes.{
  Bytes, u64_mod, bytes_eq_refl, encode_uint64, decode-encode_uint64, length-encode_uint64,
}
use solana_infrastructure.Store.Bolt.{Bolt, BoltLaws, BucketName, max_value_size}
use solana_infrastructure.Store.Codec.{Codec, CodecLaws}
use solana_infrastructure.Store.Data.{StoreError, BlockPoint, latest_block_point_key}
use solana_infrastructure.Store.Monad.{nil_tx}
use solana_infrastructure.Store.Queue.Keys.{bytes_eq-encode_uint64}
use solana_infrastructure.Store.Blocks.{
  walk_back, get_blockhash_by_slot, get_latest_block_point, store_block,
  get_block_number_by_blockhash,
}

module _ (b : Bolt) (c : Codec) where
  open b use {Tx, has_bucket, get, put, commits}

  -- `p` is the newest block stored at or below `slot`.
  pub record IsNewest (p : BlockPoint) (slot : ℕ) (t : Tx) : Type 0 where
    pub text : Bytes
    pub at_or_below : p.block_slot ≤ slot
    pub stored : get BucketName.blocks (encode_uint64 p.block_slot) t ≡ some text
    pub reads : c.unmarshal_block_point text ≡ some p
    pub skipped :
        (j : ℕ) → p.block_slot < j → j ≤ slot → get BucketName.blocks (encode_uint64 j) t ≡ none

  walk_back-hit :
      (n : ℕ) (t : Tx) (v : Bytes) (p : BlockPoint)
      → get BucketName.blocks (encode_uint64 n) t ≡ some v
      → c.unmarshal_block_point v ≡ some p
      → walk_back b c n t ≡ ok p.block_hash
  unfolding walk_back
  walk_back-hit zero t v p e h = ground (arith, e, h)
  walk_back-hit (suc n) t v p e h = ground (arith, e, h)

  hit_at :
      (n : ℕ) (t : Tx) (p : BlockPoint)
      → IsNewest p n t
      → p.block_slot ≡ n
      → walk_back b c n t ≡ ok p.block_hash
  hit_at n t p x e =
      walk_back-hit n t x.text p
        (subst (λ j. get BucketName.blocks (encode_uint64 j) t ≡ some x.text) e x.stored) x.reads

  pub walk_back-newest :
      (n : ℕ) (t : Tx) (p : BlockPoint) → IsNewest p n t → walk_back b c n t ≡ ok p.block_hash
  unfolding walk_back
  walk_back-newest zero t p x = hit_at zero t p x (omega arith)
  walk_back-newest (suc n) t p x = elim (ℕ_discrete p.block_slot (suc n)) [
    | yes same ↦ hit_at (suc n) t p x same
    | no other ↦ ground (
      arith,
      x.skipped (suc n) (omega arith) (omega arith),
      walk_back-newest n t p (record {
        text = x.text;
        at_or_below = omega arith;
        stored = x.stored;
        reads = x.reads;
        skipped = λ j lo hi. x.skipped j lo (omega arith);
      }),
    )
  ]

  pub walk_back-none :
      (n : ℕ) (t : Tx)
      → ((j : ℕ) → j ≤ n → get BucketName.blocks (encode_uint64 j) t ≡ none)
      → walk_back b c n t ≡ err StoreError.not_found
  unfolding walk_back
  walk_back-none zero t h = ground (arith, h 0 (omega arith))
  walk_back-none (suc n) t h =
      ground (arith, h (suc n) (omega arith), walk_back-none n t (λ j le. h j (omega arith)))

  -- For a slot at or below the stored chain head, `GetBlockhashBySlot` returns the hash of the
  -- newest block at or below the slot, and changes nothing.
  pub get_blockhash_by_slot-newest :
      (slot : ℕ) (t : Tx) (head p : BlockPoint)
      → get_latest_block_point b c t ≡ (ok (some head), t)
      → has_bucket BucketName.blocks t ≡ true
      → slot ≤ head.block_slot
      → IsNewest p slot t
      → get_blockhash_by_slot b c slot t ≡ (ok p.block_hash, t)
  unfolding get_blockhash_by_slot
  get_blockhash_by_slot-newest slot t head p latest has le x =
      ground (arith, latest, walk_back-newest slot t p x, has)

  -- For a slot at or below the stored chain head with no block at or below it,
  -- `GetBlockhashBySlot` returns the error for that, and changes nothing.
  pub get_blockhash_by_slot-none :
      (slot : ℕ) (t : Tx) (head : BlockPoint)
      → get_latest_block_point b c t ≡ (ok (some head), t)
      → has_bucket BucketName.blocks t ≡ true
      → slot ≤ head.block_slot
      → ((j : ℕ) → j ≤ slot → get BucketName.blocks (encode_uint64 j) t ≡ none)
      → get_blockhash_by_slot b c slot t ≡ (err StoreError.not_found, t)
  unfolding get_blockhash_by_slot
  get_blockhash_by_slot-none slot t head latest has le h =
      ground (arith, latest, walk_back-none slot t h, has)

-- The blocks' bucket and the hash index are there, and what the block point is written as fits.
pub record CanStore (b : Bolt) (c : Codec) (p : BlockPoint) (v : Bytes) (t : b.Tx) : Type 0 where
  pub blocks_there : b.has_bucket BucketName.blocks t ≡ true
  pub hashes_there : b.has_bucket BucketName.block_hash_to_number t ≡ true
  pub marshalled : c.marshal_block_point p ≡ some v
  pub text_fits : length v ≤ max_value_size
  pub hash_sized : length p.block_hash ≡ 32
  pub slot_fits : p.block_slot < u64_mod
  pub number_fits : p.block_number < u64_mod

module _ (b : Bolt) (c : Codec) (laws : BoltLaws b) (texts : CodecLaws c)
    (durable : (t : b.Tx) → b.commits t ≡ true) where
  open b use {Tx, has_bucket, get, put, commits}

  -- The two writes of `StoreBlock`.
  record Stored (p : BlockPoint) (v : Bytes) (t t' : Tx) : Type 0 where
    hash_value :
        get BucketName.block_hash_to_number p.block_hash t' ≡ some (encode_uint64 p.block_number)
    hash_bucket : has_bucket BucketName.block_hash_to_number t' ≡ true
    blocks_bucket : has_bucket BucketName.blocks t' ≡ true
    head_bucket :
        has_bucket BucketName.latest_block_point t' ≡ has_bucket BucketName.latest_block_point t
    head_value :
        get BucketName.latest_block_point latest_block_point_key t'
        ≡ get BucketName.latest_block_point latest_block_point_key t
    slot_value : get BucketName.blocks (encode_uint64 p.block_slot) t' ≡ some v
    other_slots :
        (j : ℕ)
        → j < u64_mod
        → j ≢ p.block_slot
        → get BucketName.blocks (encode_uint64 j) t' ≡ get BucketName.blocks (encode_uint64 j) t

  store_block_writes :
      (p : BlockPoint) (v : Bytes) (t : Tx)
      → CanStore b c p v t
      → (t' : Tx) × (store_block b c nil_tx p t ≡ (ok tt, record { db = t'; tx = nil_tx }))
        × Stored p v t t'
  unfolding store_block
  store_block_writes p v t can =
      let (t1, e1) =
        laws.put_succeeds BucketName.blocks (encode_uint64 p.block_slot) v t can.blocks_there
          (omega (arith, length-encode_uint64 p.block_slot))
          (omega (arith, length-encode_uint64 p.block_slot)) can.text_fits in
      let has1 =
        laws.has_bucket-put _ BucketName.block_hash_to_number _ _ t t1 e1 ∙ can.hashes_there in
      let (t2, e2) =
        laws.put_succeeds BucketName.block_hash_to_number p.block_hash
          (encode_uint64 p.block_number) t1 has1 (omega (arith, can.hash_sized))
          (omega (arith, can.hash_sized)) (omega (arith, length-encode_uint64 p.block_number)) in
      (
        t2,
        ground (arith, can.blocks_there, can.hashes_there, can.marshalled, e1, e2, durable t2),
        record {
          hash_value = ground (
            arith,
            laws.get-put _ BucketName.block_hash_to_number _ _ p.block_hash t1 t2 e2,
            bytes_eq_refl p.block_hash,
          );
          hash_bucket = laws.has_bucket-put _ BucketName.block_hash_to_number _ _ t1 t2 e2 ∙ has1;
          blocks_bucket =
              laws.has_bucket-put _ BucketName.blocks _ _ t1 t2 e2
              ∙ laws.has_bucket-put _ BucketName.blocks _ _ t t1 e1
              ∙ can.blocks_there;
          head_bucket =
              laws.has_bucket-put _ BucketName.latest_block_point _ _ t1 t2 e2
              ∙ laws.has_bucket-put _ BucketName.latest_block_point _ _ t t1 e1;
          head_value = ground (
            arith,
            laws.get-put _ BucketName.latest_block_point _ _ latest_block_point_key t1 t2 e2,
            laws.get-put _ BucketName.latest_block_point _ _ latest_block_point_key t t1 e1,
          );
          slot_value = ground (
            arith,
            laws.get-put _ BucketName.blocks _ _ (encode_uint64 p.block_slot) t1 t2 e2,
            laws.get-put _ BucketName.blocks _ _ (encode_uint64 p.block_slot) t t1 e1,
            bytes_eq_refl (encode_uint64 p.block_slot),
          );
          other_slots = λ j lt ne. ground (
            arith,
            laws.get-put _ BucketName.blocks _ _ (encode_uint64 j) t1 t2 e2,
            laws.get-put _ BucketName.blocks _ _ (encode_uint64 j) t t1 e1,
            bytes_eq-encode_uint64 j p.block_slot lt can.slot_fits,
          );
        },
      )

  -- The chain head is read from a bucket that `StoreBlock` does not write.
  head_kept :
      (t t' : Tx) (r : Result StoreError (Option BlockPoint))
      → has_bucket BucketName.latest_block_point t' ≡ has_bucket BucketName.latest_block_point t
      → get BucketName.latest_block_point latest_block_point_key t'
        ≡ get BucketName.latest_block_point latest_block_point_key t
      → get_latest_block_point b c t ≡ (r, t)
      → get_latest_block_point b c t' ≡ (r, t')
  unfolding get_latest_block_point
  head_kept t t' r same_bucket_there same_value e =
      rw (same_bucket_there, same_value) (ap (λ o. (o.0, t')) e)

  -- After `StoreBlock`, on a database with a chain head and whose commits succeed, the block's number is found by its hash,
  -- and `GetBlockhashBySlot` returns its hash for every slot from its own on, up to the chain head,
  -- where no block was stored for the slots in between.
  pub store_block-found :
      (p head : BlockPoint) (v : Bytes) (t : Tx) (slot : ℕ)
      → CanStore b c p v t
      → get_latest_block_point b c t ≡ (ok (some head), t)
      → p.block_slot ≤ slot
      → slot ≤ head.block_slot
      → slot < u64_mod
      → ((j : ℕ) → p.block_slot < j → j ≤ slot → get BucketName.blocks (encode_uint64 j) t ≡ none)
      → (t' : Tx) × (store_block b c nil_tx p t ≡ (ok tt, record { db = t'; tx = nil_tx }))
        × (get_block_number_by_blockhash b c p.block_hash t' ≡ (ok p.block_number, t'))
        × (get_blockhash_by_slot b c slot t' ≡ (ok p.block_hash, t'))
  unfolding get_block_number_by_blockhash
  store_block-found p head v t slot can latest le below fits gap =
      let (t', run, w) = store_block_writes p v t can in
      let number = decode-encode_uint64 {E = StoreError} p.block_number [] can.number_fits in
      (
        t',
        run,
        ground (
          arith,
          w.hash_value,
          w.hash_bucket,
          length-encode_uint64 p.block_number,
          append-nil (encode_uint64 p.block_number),
          number,
        ),
        get_blockhash_by_slot-newest b c slot t' head p
            (head_kept t t' (ok (some head)) w.head_bucket w.head_value latest) w.blocks_bucket
            below
            (record {
              text = v;
              at_or_below = le;
              stored = w.slot_value;
              reads = texts.block_point_roundtrip p v can.marshalled;
              skipped = λ j lo hi. w.other_slots j (omega arith) (omega arith) ∙ gap j lo hi;
            }),
      )
