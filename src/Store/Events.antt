-- ===== src/Store/Events.antt =====
-- Events: their ids, the records, and the index by block number.
pub mod Order
pub mod Log
pub mod Read
pub mod Write
use solana_infrastructure.Base.{
  ℕ, zero, suc, ◌+◌, ◌%◌, Bool, true, false, ◌||◌, List, [], ◌∷◌, ◌++◌, Option, none, some, Result,
  ok, err, panic, length, ◌==◌, or_fail, map_err, if◌then◌else◌, ◌>>=◌ as ◌⟫=◌,
}
use solana_infrastructure.Base.Bytes.{Bytes, u64_mod, bytes_eq, encode_uint64, decode_uint64}
use solana_infrastructure.Store.Bolt.{Bolt, BucketName}
use solana_infrastructure.Store.Codec.{Codec, EventRecord}
use solana_infrastructure.Store.Data.{StoreError, counter_key}
use solana_infrastructure.Store.Monad.{
  Body, next, ◌>>=◌, ◌>>◌, pure, fail, reading, check, require_bucket, writing, view,
  StorageTransaction, Stores, run_in,
}

-- The first id is 1; the counter is a uint64.
abbrev pub next_id : Option Bytes → Result StoreError ℕ
next_id none = ok 1
next_id (some v) = decode_uint64 v ⟫= λ n. ok ((n + 1) % u64_mod)

abbrev pub bytes_or_nil : Option Bytes → Bytes
bytes_or_nil none = []
bytes_or_nil (some v) = v

-- The loop of `decodeEventIDs`; a last slice of fewer than eight bytes would be out of range.
unfoldable pub decode_ids_loop : Bytes → Result StoreError (List ℕ)
decode_ids_loop [] = ok []
decode_ids_loop (x0 ∷ x1 ∷ x2 ∷ x3 ∷ x4 ∷ x5 ∷ x6 ∷ x7 ∷ rest) =
    decode_uint64 (x0 ∷ x1 ∷ x2 ∷ x3 ∷ x4 ∷ x5 ∷ x6 ∷ x7 ∷ []) ⟫= λ i.
    decode_ids_loop rest ⟫= λ is. ok (i ∷ is)
decode_ids_loop _ = panic

unfoldable pub decode_event_ids : Bytes → Result StoreError (List ℕ)
decode_event_ids v =
    if length v % 8 == 0 then decode_ids_loop v else err (StoreError.invalid_length (length v))

abbrev pub is_seen : Bytes → List Bytes → Bool
is_seen x [] = false
is_seen x (y ∷ ys) = bytes_eq x y || is_seen x ys

-- The signatures of records in order, without those `seen` before.
unfoldable pub distinct : List Bytes → List Bytes → List Bytes
distinct seen [] = []
distinct seen (x ∷ xs) =
    let old = is_seen x seen in
    let rest = distinct (if old then seen else x ∷ seen) xs in if old then rest else x ∷ rest

abbrev pub first_some : Option Bytes → Option Bytes → Option Bytes
first_some none w = w
first_some (some v) w = some v

module _ (b : Bolt) where
  open b use {Tx, has_bucket, get, put, commits}

  unfoldable pub get_next_event_id : Body Tx ℕ
  get_next_event_id = do
    require_bucket has_bucket BucketName.event_id_counter
    id ← reading (λ t. next_id (get BucketName.event_id_counter counter_key t))
    writing (put BucketName.event_id_counter counter_key (encode_uint64 id))
    pure id

  unfoldable pub append_event_id_for_block_number : ℕ → ℕ → Body Tx (Unit {0})
  append_event_id_for_block_number block_number event_id = do
    require_bucket has_bucket BucketName.event_ids_by_block_number
    existing ← reading (λ t.
        ok (bytes_or_nil (get BucketName.event_ids_by_block_number (encode_uint64 block_number) t)))
    writing (
        put BucketName.event_ids_by_block_number (encode_uint64 block_number)
          (existing ++ encode_uint64 event_id))

-- What the tracker hands to `StoreEvent`; `E` is the pointer to the generated event.
pub record Event (E : Type 0) : Type 0 where
  pub slot : ℕ
  pub block_number : ℕ
  pub tx_signature : Bytes
  pub program : Bytes
  pub event_name : Bytes
  pub inner_action_hash : Bytes
  pub event_data : E

module _ (c : Codec) where
  unfoldable pub event_record : ℕ → Event c.EventData → c.DataMap → EventRecord c.DataMap
  event_record id e m = record {
    id = id;
    slot = e.slot;
    block_number = e.block_number;
    tx_signature = c.signature_text e.tx_signature;
    program = c.program_text e.program;
    event_type = e.event_name;
    inner_action_hash = e.inner_action_hash;
    event_map = m;
  }

  -- The loop of `GetEventsBySlot` over the entries of one bucket.
  unfoldable pub events_of_slot :
      ℕ → List (Bytes × Bytes) → Result StoreError (List (EventRecord c.DataMap))
  events_of_slot slot [] = ok []
  events_of_slot slot ((k, v) ∷ l) =
      or_fail (c.unmarshal_record v) StoreError.unmarshal_error ⟫= λ r.
      events_of_slot slot l ⟫= λ rs. ok (if r.slot == slot then r ∷ rs else rs)

  -- The first loop of `GetProcessedTxSignaturesBySlot`.
  unfoldable pub record_signatures : List (EventRecord c.DataMap) → Result StoreError (List Bytes)
  record_signatures [] = ok []
  record_signatures (r ∷ rs) =
      or_fail (c.signature_from_base58 r.tx_signature) (StoreError.invalid_signature r.id) ⟫= λ s.
      record_signatures rs ⟫= λ ss. ok (s ∷ ss)

module _ (b : Bolt) (c : Codec) where
  open b use {Tx, has_bucket, get, put, commits, entries}

  store_event_fn : Event c.EventData → Body Tx (Unit {0})
  store_event_fn e = do
    event_id ← get_next_event_id b
    require_bucket has_bucket BucketName.unprocessed_events
    m ← reading (λ t. or_fail (c.data_map e.event_data) StoreError.marshal_error)
    v ←
        reading
          (λ t. or_fail (c.marshal_record (event_record c event_id e m)) StoreError.marshal_error)
    writing (put BucketName.unprocessed_events (encode_uint64 event_id) v)
    append_event_id_for_block_number b e.block_number event_id

  unfoldable pub store_event :
      StorageTransaction Tx → Event c.EventData → Tx → Result StoreError (Unit {0}) × Stores Tx
  unfolding store_event_fn
  store_event tx e = run_in commits tx (store_event_fn e)

  -- A bucket that is not there is passed over.
  scan_bucket : ℕ → BucketName → Tx → Result StoreError (List (EventRecord c.DataMap))
  scan_bucket slot n t = if has_bucket n t then events_of_slot c slot (entries n t) else ok []

  unfoldable pub get_events_by_slot : ℕ → Body Tx (List (EventRecord c.DataMap))
  unfolding scan_bucket
  get_events_by_slot slot = view (do
    fresh ← reading (scan_bucket slot BucketName.unprocessed_events)
    old ← reading (scan_bucket slot BucketName.processed_events)
    pure (fresh ++ old))

  unfoldable pub get_processed_tx_signatures_by_slot : ℕ → Body Tx (List Bytes)
  get_processed_tx_signatures_by_slot slot = do
    records ← get_events_by_slot slot
    signatures ← reading (λ t. record_signatures c records)
    pure (distinct [] signatures)

  get_if_bucket : BucketName → Bytes → Tx → Option Bytes
  get_if_bucket n k t = if has_bucket n t then get n k t else none

  -- A record is looked for among the unprocessed events, then among the processed ones.
  raw_event : ℕ → Tx → Option Bytes
  unfolding get_if_bucket
  raw_event id t =
      first_some (get_if_bucket BucketName.unprocessed_events (encode_uint64 id) t)
        (get_if_bucket BucketName.processed_events (encode_uint64 id) t)

  unfoldable pub events_of_ids : List ℕ → Tx → Result StoreError (List (EventRecord c.DataMap))
  unfolding raw_event
  events_of_ids [] t = ok []
  events_of_ids (id ∷ ids) t = or_fail (raw_event id t) (StoreError.event_missing id) ⟫= λ v.
      or_fail (c.unmarshal_record v) StoreError.unmarshal_error ⟫= λ r.
      events_of_ids ids t ⟫= λ rs. ok (r ∷ rs)

  events_of_index : ℕ → Option Bytes → Tx → Result StoreError (List (EventRecord c.DataMap))
  events_of_index block_number none t = ok []
  events_of_index block_number (some v) t =
      map_err (StoreError.corrupt_index block_number) (decode_event_ids v) ⟫= λ ids.
      events_of_ids ids t

  unfoldable pub get_events_by_block_number : ℕ → Body Tx (List (EventRecord c.DataMap))
  unfolding events_of_index
  get_events_by_block_number block_number = view (do
    require_bucket has_bucket BucketName.event_ids_by_block_number
    reading (λ t.
        events_of_index block_number
          (get BucketName.event_ids_by_block_number (encode_uint64 block_number) t) t))
