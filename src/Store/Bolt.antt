-- ===== src/Store/Bolt.antt =====
-- go.etcd.io/bbolt, which the store calls, as an interface: what a transaction sees of the
-- database, and the documented laws of its operations.
use solana_infrastructure.Base.{
  ℕ, ◌≤◌, ◌<◌, ◌≡◌, Bool, true, ◌&&◌, ◌||◌, [], ◌∷◌, List, Option, none, some, length, ◌==◌,
  if◌then◌else◌,
}
use solana_infrastructure.Base.Bytes.{Bytes, bytes_eq, bytes_less}

-- The buckets that the store creates; each constructor stands for the variable's byte string.
pub data BucketName : Type 0 where
  blocks block_hash_to_number latest_block_point : BucketName
  unprocessed_events processed_events event_id_counter : BucketName
  unprocessed_tx_signatures latest_finalized_block_number : BucketName
  event_ids_by_block_number : BucketName

abbrev bucket_index : BucketName → ℕ
bucket_index BucketName.blocks = 0
bucket_index BucketName.block_hash_to_number = 1
bucket_index BucketName.latest_block_point = 2
bucket_index BucketName.unprocessed_events = 3
bucket_index BucketName.processed_events = 4
bucket_index BucketName.event_id_counter = 5
bucket_index BucketName.unprocessed_tx_signatures = 6
bucket_index BucketName.latest_finalized_block_number = 7
bucket_index BucketName.event_ids_by_block_number = 8

abbrev pub same_bucket : BucketName → BucketName → Bool
same_bucket m n = bucket_index m == bucket_index n

-- The key that a read and a write have in common.
abbrev pub same_key : BucketName → Bytes → BucketName → Bytes → Bool
same_key m j n k = same_bucket m n && bytes_eq j k

-- `Tx` is the database as a transaction sees it. `has_bucket` is `tx.Bucket(name) != nil`, `none`
-- is an error of the operation, `entries` is what a cursor goes through, and `commits` says
-- whether the commit succeeds.
pub record Bolt : Type 1 where
  pub Tx : Type 0
  pub has_bucket : BucketName → Tx → Bool
  pub create_bucket : BucketName → Tx → Option Tx
  pub get : BucketName → Bytes → Tx → Option Bytes
  pub put : BucketName → Bytes → Bytes → Tx → Option Tx
  pub delete : BucketName → Bytes → Tx → Option Tx
  pub entries : BucketName → Tx → List (Bytes × Bytes)
  pub commits : Tx → Bool

-- bbolt's MaxKeySize and MaxValueSize.
abbrev pub max_key_size : ℕ
max_key_size = 32768

abbrev pub max_value_size : ℕ
max_value_size = 2147483646

-- A bucket keeps its entries in the byte order of their keys.
unfoldable pub insert_entry : Bytes → Bytes → List (Bytes × Bytes) → List (Bytes × Bytes)
insert_entry k v [] = (k, v) ∷ []
insert_entry k v ((j, w) ∷ l) =
    if bytes_eq j k
    then (k, v) ∷ l
    else if bytes_less k j
    then (k, v) ∷ (j, w) ∷ l
    else (j, w) ∷ insert_entry k v l

-- The documented behaviour of `CreateBucketIfNotExists`, `Get`, `Put`, `Delete` and cursors.
pub record BoltLaws (b : Bolt) : Type 0 where
  pub create_succeeds : (n : BucketName) (t : b.Tx) → (t' : b.Tx) × (b.create_bucket n t ≡ some t')
  pub has_bucket-create :
      (n m : BucketName) (t t' : b.Tx)
      → b.create_bucket n t ≡ some t'
      → b.has_bucket m t' ≡ (same_bucket m n || b.has_bucket m t)
  pub get-create :
      (n m : BucketName) (j : Bytes) (t t' : b.Tx)
      → b.create_bucket n t ≡ some t'
      → b.get m j t' ≡ b.get m j t
  pub entries-create :
      (n m : BucketName) (t t' : b.Tx)
      → b.create_bucket n t ≡ some t'
      → b.entries m t' ≡ b.entries m t
  pub has_bucket-put :
      (n m : BucketName) (k v : Bytes) (t t' : b.Tx)
      → b.put n k v t ≡ some t'
      → b.has_bucket m t' ≡ b.has_bucket m t
  pub get-put :
      (n m : BucketName) (k v j : Bytes) (t t' : b.Tx)
      → b.put n k v t ≡ some t'
      → b.get m j t' ≡ (if same_key m j n k then some v else b.get m j t)
  pub entries-put :
      (n m : BucketName) (k v : Bytes) (t t' : b.Tx)
      → b.put n k v t ≡ some t'
      → b.entries m t'
        ≡ (if same_bucket m n then insert_entry k v (b.entries m t) else b.entries m t)
  pub put_succeeds :
      (n : BucketName) (k v : Bytes) (t : b.Tx)
      → b.has_bucket n t ≡ true
      → 0 < length k
      → length k ≤ max_key_size
      → length v ≤ max_value_size
      → (t' : b.Tx) × (b.put n k v t ≡ some t')
  pub has_bucket-delete :
      (n m : BucketName) (k : Bytes) (t t' : b.Tx)
      → b.delete n k t ≡ some t'
      → b.has_bucket m t' ≡ b.has_bucket m t
  pub get-delete :
      (n m : BucketName) (k j : Bytes) (t t' : b.Tx)
      → b.delete n k t ≡ some t'
      → b.get m j t' ≡ (if same_key m j n k then none else b.get m j t)
  pub delete_succeeds :
      (n : BucketName) (k : Bytes) (t : b.Tx)
      → b.has_bucket n t ≡ true
      → (t' : b.Tx) × (b.delete n k t ≡ some t')
