-- ===== src/Store/Queue.antt =====
-- The queue of unprocessed transactions and the two markers beside it.
pub mod Settled
pub mod Keys
pub mod Log
pub mod Frame
pub mod Push
pub mod Finalize
pub mod History
use solana_infrastructure.Base.{
  ℕ, zero, suc, ◌+◌, ◌-◌, ◌%◌, Bool, true, false, not, List, [], ◌∷◌, Option, none, some, Result,
  ok, err, panic, keep, ltb, leb, if◌then◌else◌, map_err, ◌>>=◌ as ◌⟫=◌,
}
use solana_infrastructure.Base.Bytes.{Bytes, u64_mod, bytes_eq, encode_uint64, decode_uint64}
use solana_infrastructure.Store.Bolt.{Bolt, BucketName}
use solana_infrastructure.Store.Data.{
  StoreError, TxPoint, zero_signature, zero_tx_point, head_key, tail_key, last_processed_key,
  last_queried_key, encode_tx_point, tx_point_from_bucket_value,
}
use solana_infrastructure.Store.Monad.{
  Body, next, view, ◌>>=◌, ◌>>◌, pure, fail, reading, check, writing, finish, update_with,
}

-- Indexes of the front element and one past the last element.
pub record TxQueueBounds : Type 0 where
  pub head : ℕ
  pub tail : ℕ

abbrev pub queue_bucket : BucketName
queue_bucket = BucketName.unprocessed_tx_signatures

-- A missing key reads as the given default.
abbrev pub decoded_or : ℕ → Option Bytes → Result StoreError ℕ
decoded_or d none = ok d
decoded_or d (some v) = decode_uint64 v

-- `bucket.Get` gives nil, the empty slice, for a missing key.
abbrev pub or_nil : Option Bytes → Bytes
or_nil none = []
or_nil (some v) = v

-- Entries with the zero signature are dropped.
unfoldable pub non_empty : List TxPoint → List TxPoint
non_empty = keep (λ p. not (bytes_eq p.tx_signature zero_signature))

-- A missing key reads as the zero TxPoint.
abbrev pub tx_point_or_zero : Option Bytes → Result StoreError TxPoint
tx_point_or_zero none = ok zero_tx_point
tx_point_or_zero (some value) = tx_point_from_bucket_value value

module _ (b : Bolt) where
  open b use {Tx, has_bucket, get, put, delete, commits}

  -- `unprocessedTxSignaturesBucket`.
  unfoldable pub unprocessed_tx_signatures_bucket : Body Tx (Unit {0})
  unprocessed_tx_signatures_bucket t = check (has_bucket queue_bucket t) StoreError.bucket_missing t

  unfoldable pub load_tx_queue_bounds : Body Tx TxQueueBounds
  load_tx_queue_bounds = do
    head ← reading (λ t. decoded_or 0 (get queue_bucket head_key t))
    tail ← reading (λ t. decoded_or 0 (get queue_bucket tail_key t))
    pure (record { head = head; tail = tail })

  unfoldable pub store_tx_queue_head : ℕ → Body Tx (Unit {0})
  store_tx_queue_head head = writing (put queue_bucket head_key (encode_uint64 head))

  unfoldable pub store_tx_queue_tail : ℕ → Body Tx (Unit {0})
  store_tx_queue_tail tail = writing (put queue_bucket tail_key (encode_uint64 tail))

  -- The loop of `PushUnprocessedTransactions`; `tail` is a uint64, and wraps.
  unfoldable pub push_loop : List TxPoint → ℕ → Body Tx ℕ
  push_loop [] tail = pure tail
  push_loop (p ∷ ps) tail = do
    writing (put queue_bucket (encode_uint64 tail) (encode_tx_point p))
    push_loop ps ((tail + 1) % u64_mod)

  push_body : List TxPoint → Body Tx (Unit {0})
  unfolding unprocessed_tx_signatures_bucket
  push_body ps = do
    unprocessed_tx_signatures_bucket
    bounds ← load_tx_queue_bounds
    tail ← push_loop ps bounds.tail
    store_tx_queue_tail tail

  push_non_empty : List TxPoint → Body Tx (Unit {0})
  push_non_empty [] = pure tt
  push_non_empty (p ∷ ps) = update_with commits (push_body (p ∷ ps))

  unfoldable pub push_unprocessed_transactions : List TxPoint → Body Tx (Unit {0})
  unfolding push_non_empty push_body
  push_unprocessed_transactions ps = push_non_empty (non_empty ps)

  -- `removeTransactionInBucket`.
  unfoldable pub remove_transaction_in_bucket : Bytes → Body Tx TxPoint
  remove_transaction_in_bucket signature = do
    bounds ← load_tx_queue_bounds
    check (ltb bounds.head bounds.tail) StoreError.queue_empty
    front ← reading (λ t.
        map_err (StoreError.corrupt_index bounds.head)
          (tx_point_from_bucket_value (or_nil (get queue_bucket (encode_uint64 bounds.head) t))))
    check (bytes_eq front.tx_signature signature)
        (StoreError.not_at_front signature front.tx_signature)
    writing (delete queue_bucket (encode_uint64 bounds.head))
    store_tx_queue_head ((bounds.head + 1) % u64_mod)
    pure front

  unfoldable pub set_last_processed_transaction_in_bucket : TxPoint → Body Tx (Unit {0})
  set_last_processed_transaction_in_bucket p =
      writing (put queue_bucket last_processed_key (encode_tx_point p))

  -- The loop of `GetAllUnprocessedTransactions` from index `i`, with `n` entries to go.
  unfoldable pub read_loop : ℕ → ℕ → Tx → Result StoreError (List TxPoint)
  read_loop zero i t = ok []
  read_loop (suc n) i t =
      map_err (StoreError.corrupt_index i)
        (tx_point_from_bucket_value (or_nil (get queue_bucket (encode_uint64 i) t)))
      ⟫= λ p. read_loop n (i + 1) t ⟫= λ ps. ok (p ∷ ps)

  unfoldable pub get_all_unprocessed_transactions : Body Tx (List TxPoint)
  get_all_unprocessed_transactions = view (do
    unprocessed_tx_signatures_bucket
    bounds ← load_tx_queue_bounds
    check (leb bounds.head bounds.tail) StoreError.corrupt_queue
    reading (read_loop (bounds.tail - bounds.head) bounds.head))

  unfoldable pub set_last_processed_transaction : TxPoint → Body Tx (Unit {0})
  set_last_processed_transaction p =
      update_with commits
        (do unprocessed_tx_signatures_bucket; set_last_processed_transaction_in_bucket p)

  unfoldable pub finalize_processed_transaction : Bytes → Body Tx (Unit {0})
  finalize_processed_transaction signature = update_with commits (do
    unprocessed_tx_signatures_bucket
    p ← remove_transaction_in_bucket signature
    set_last_processed_transaction_in_bucket p)

  unfoldable pub store_latest_queried_transaction : TxPoint → Body Tx (Unit {0})
  store_latest_queried_transaction p = update_with commits (do
    unprocessed_tx_signatures_bucket
    writing (put queue_bucket last_queried_key (encode_tx_point p)))

  unfoldable pub get_tx_point_by_key : Bytes → Body Tx TxPoint
  get_tx_point_by_key key = view (do
    unprocessed_tx_signatures_bucket
    reading (λ t. tx_point_or_zero (get queue_bucket key t)))

  unfoldable pub get_last_processed_transaction : Body Tx TxPoint
  get_last_processed_transaction = get_tx_point_by_key last_processed_key

  unfoldable pub get_latest_queried_transaction : Body Tx TxPoint
  get_latest_queried_transaction = get_tx_point_by_key last_queried_key
