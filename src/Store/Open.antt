-- ===== src/Store/Open.antt =====
-- `NewBoltStorageHandler`: the buckets that opening the store creates.
pub mod Fresh
use solana_infrastructure.Base.{List, [], ◌∷◌, Result, ok}
use solana_infrastructure.Store.Bolt.{Bolt, BucketName}
use solana_infrastructure.Store.Data.{StoreError}
use solana_infrastructure.Store.Monad.{Body, next, ◌>>◌, pure, writing, update_with}

abbrev pub all_buckets : List BucketName
all_buckets =
    BucketName.blocks ∷ BucketName.block_hash_to_number ∷ BucketName.latest_block_point
    ∷ BucketName.unprocessed_events ∷ BucketName.processed_events ∷ BucketName.event_id_counter
    ∷ BucketName.unprocessed_tx_signatures ∷ BucketName.latest_finalized_block_number
    ∷ BucketName.event_ids_by_block_number ∷ []

module _ (b : Bolt) where
  -- `tx.CreateBucketIfNotExists`, one bucket after the other.
  unfoldable pub create_buckets : List BucketName → Body b.Tx (Unit {0})
  create_buckets [] = pure tt
  create_buckets (n ∷ ns) = do writing (b.create_bucket n); create_buckets ns

  unfoldable pub new_bolt_storage_handler : Body b.Tx (Unit {0})
  new_bolt_storage_handler = update_with b.commits (create_buckets all_buckets)
