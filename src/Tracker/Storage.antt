-- ===== src/Tracker/Storage.antt =====
-- store.StorageHandler, as far as the tracker calls it, and the bolt handler as one.
use solana_infrastructure.Base.{ℕ, List, Option, Result}
use solana_infrastructure.Base.Bytes.{Bytes}
use solana_infrastructure.Store.Bolt.{Bolt}
use solana_infrastructure.Store.Codec.{Codec}
use solana_infrastructure.Store.Data.{StoreError, BlockPoint, TxPoint}
use solana_infrastructure.Store.Monad.{Body, StorageTransaction, nil_tx, Stores}
use solana_infrastructure.Store.Blocks
use solana_infrastructure.Store.Events
use solana_infrastructure.Store.Events.{Event}
use solana_infrastructure.Store.Queue

-- `S` is what is persisted and `E` the pointer to an event. The tracker passes no transaction.
pub record StorageHandler (S E : Type 0) : Type 0 where
  pub store_block : BlockPoint → Body S (Unit {0})
  pub store_latest_block_point : BlockPoint → Body S (Unit {0})
  pub get_latest_block_point : Body S (Option BlockPoint)
  pub store_latest_finalized_block_number : ℕ → Body S (Unit {0})
  pub store_event : Event E → Body S (Unit {0})
  pub get_processed_tx_signatures_by_slot : ℕ → Body S (List Bytes)
  pub push_unprocessed_transactions : List TxPoint → Body S (Unit {0})
  pub get_all_unprocessed_transactions : Body S (List TxPoint)
  pub finalize_processed_transaction : Bytes → Body S (Unit {0})
  pub set_last_processed_transaction : TxPoint → Body S (Unit {0})
  pub get_last_processed_transaction : Body S TxPoint
  pub store_latest_queried_transaction : TxPoint → Body S (Unit {0})
  pub get_latest_queried_transaction : Body S TxPoint

-- A call with the nil transaction, which leaves a database and no transaction.
abbrev pub with_nil_tx :
    {S A : Type 0} → (StorageTransaction S → S → Result StoreError A × Stores S) → Body S A
with_nil_tx call d = ((call nil_tx d).0, (call nil_tx d).1.db)

abbrev pub bolt_storage : (b : Bolt) (c : Codec) → StorageHandler b.Tx c.EventData
bolt_storage b c = record {
  store_block = λ p. with_nil_tx (λ tx. Blocks.store_block b c tx p);
  store_latest_block_point = λ p. with_nil_tx (λ tx. Blocks.store_latest_block_point b c tx p);
  get_latest_block_point = Blocks.get_latest_block_point b c;
  store_latest_finalized_block_number = Blocks.store_latest_finalized_block_number b c;
  store_event = λ e. with_nil_tx (λ tx. Events.store_event b c tx e);
  get_processed_tx_signatures_by_slot = Events.get_processed_tx_signatures_by_slot b c;
  push_unprocessed_transactions = Queue.push_unprocessed_transactions b;
  get_all_unprocessed_transactions = Queue.get_all_unprocessed_transactions b;
  finalize_processed_transaction = Queue.finalize_processed_transaction b;
  set_last_processed_transaction = Queue.set_last_processed_transaction b;
  get_last_processed_transaction = Queue.get_last_processed_transaction b;
  store_latest_queried_transaction = Queue.store_latest_queried_transaction b;
  get_latest_queried_transaction = Queue.get_latest_queried_transaction b;
}
