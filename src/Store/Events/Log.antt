-- ===== src/Store/Events/Log.antt =====
-- What the store promises about events: a log of records numbered from 1, and when a database
-- represents one.
use solana_infrastructure.Base.{
  ℕ, suc, ◌*◌, ◌<◌, ◌≡◌, refl, true, List, [], ◌∷◌, ◌++◌, append_assoc, some, ok, length,
  length-append, keep, ◌==◌, if◌then◌else◌, arith,
}
use solana_infrastructure.Base.Bytes.{Bytes, u64_mod, encode_uint64, length-encode_uint64}
use solana_infrastructure.Store.Bolt.{Bolt, BucketName}
use solana_infrastructure.Store.Codec.{Codec, EventRecord}
use solana_infrastructure.Store.Data.{counter_key}
use solana_infrastructure.Store.Events.{next_id, bytes_or_nil}
use solana_infrastructure.Store.Events.Order.{rows}

module _ {D : Type 0} where
  -- The records of a slot, and of a block, in the order in which they were stored.
  abbrev pub of_slot : ℕ → List (EventRecord D) → List (EventRecord D)
  of_slot n = keep (λ r. r.slot == n)

  abbrev pub of_block : ℕ → List (EventRecord D) → List (EventRecord D)
  of_block n = keep (λ r. r.block_number == n)

  abbrev pub id_bytes : List (EventRecord D) → Bytes
  id_bytes [] = []
  id_bytes (r ∷ rs) = encode_uint64 r.id ++ id_bytes rs

module _ {D : Type 0} where
  pub of_block-append :
      (n : ℕ) (rs : List (EventRecord D)) (r : EventRecord D)
      → of_block n (rs ++ r ∷ []) ≡ of_block n rs ++ (if r.block_number == n then r ∷ [] else [])
  of_block-append n [] r = ground arith
  of_block-append n (x ∷ rs) r = ground (arith, of_block-append n rs r)

  pub id_bytes-append :
      (rs qs : List (EventRecord D)) → id_bytes (rs ++ qs) ≡ id_bytes rs ++ id_bytes qs
  id_bytes-append [] qs = refl
  id_bytes-append (r ∷ rs) qs = simp (id_bytes-append rs qs, append_assoc)

  pub length-id_bytes : (rs : List (EventRecord D)) → length (id_bytes rs) ≡ 8 * length rs
  length-id_bytes [] = refl
  length-id_bytes (r ∷ rs) = omega (
    arith,
    length-append (encode_uint64 r.id) (id_bytes rs),
    length-encode_uint64 r.id,
    length-id_bytes rs,
  )

module _ (b : Bolt) (c : Codec) where
  open b use {Tx, has_bucket, get, entries}

  -- The records `rs` have the ids from `i` on, and are stored as the texts `vs`.
  abbrev pub Rows : Tx → ℕ → List (EventRecord c.DataMap) → List Bytes → Type 0
  Rows t i [] [] = Unit {0}
  Rows t i [] (v ∷ vs) = ⊥
  Rows t i (r ∷ rs) [] = ⊥
  Rows t i (r ∷ rs) (v ∷ vs) =
      (get BucketName.unprocessed_events (encode_uint64 i) t ≡ some v)
      × (c.unmarshal_record v ≡ some r)
      × (r.id ≡ i)
      × Rows t (suc i) rs vs

  -- Every event is still among the unprocessed ones: nothing moves them.
  pub record Records (t : Tx) (rs : List (EventRecord c.DataMap)) : Type 0 where
    pub values : List Bytes
    pub counter_there : has_bucket BucketName.event_id_counter t ≡ true
    pub events_there : has_bucket BucketName.unprocessed_events t ≡ true
    pub index_there : has_bucket BucketName.event_ids_by_block_number t ≡ true
    pub counter : next_id (get BucketName.event_id_counter counter_key t) ≡ ok (suc (length rs))
    pub fits : suc (length rs) < u64_mod
    pub stored : Rows t 1 rs values
    pub listed : entries BucketName.unprocessed_events t ≡ rows 1 values
    pub none_processed : entries BucketName.processed_events t ≡ []
    pub index :
        (n : ℕ)
        → n < u64_mod
        → bytes_or_nil (get BucketName.event_ids_by_block_number (encode_uint64 n) t)
          ≡ id_bytes (of_block n rs)
