-- ===== src/Tracker/Processing.antt =====
-- tracker/tracker.go: the processing of the transaction at the front of the queue.
pub mod Finalized
pub mod Notified
pub mod Delivered
use solana_infrastructure.Base.{
  ℕ, zero, suc, Bool, true, false, List, [], ◌∷◌, ◌++◌, Option, none, some, Result, ok, err, panic,
  or_fail, length, replicate, take, drop, ltb, if◌then◌else◌, ◌>>=◌ as ◌⟫=◌,
}
use solana_infrastructure.Base.Bytes.{Bytes, bytes_eq}
use solana_infrastructure.Store.Data.{StoreError, TxPoint}
use solana_infrastructure.Store.Events.{Event}
use solana_infrastructure.Tracker.Action.{Action, after, ◌>>=◌, ◌>>◌, computed, storing}
use solana_infrastructure.Tracker.ChainHead.{Block, Node, TryAgain, fetch_block}
use solana_infrastructure.Tracker.Cpi.{
  Instruction, InnerInstruction, EmittedEvent, FindError, transaction_account_keys,
  collect_cpi_events, find_batch_payload_at_instruction,
}
use solana_infrastructure.Tracker.Retry.{RetryError}
use solana_infrastructure.Tracker.Storage.{StorageHandler}

-- `unmarshal` creates an event of the type and reads it; `none` is an error.
pub record EventSpec (D : Type 0) : Type 0 where
  pub name : Bytes
  pub discriminant : Bytes
  pub unmarshal : Bytes → Option D

pub record Transaction : Type 0 where
  pub account_keys : List Bytes
  pub instructions : List Instruction

-- `failed` is `Meta.Err != nil`, and `none` stands for nil.
pub record TransactionMeta : Type 0 where
  pub failed : Bool
  pub inner_instructions : Option (List InnerInstruction)
  pub loaded_writable : List Bytes
  pub loaded_read_only : List Bytes

-- `transaction` is `none` if it cannot be decoded.
pub record TransactionResponse : Type 0 where
  pub slot : ℕ
  pub meta : Option TransactionMeta
  pub transaction : Option Transaction

-- What the processing reads of the tracker's fields, of the node and of other libraries. `P` is
-- `SolanaPayload`, `D` the pointer to an event. An event's notification has the fields of `Event`.
pub record Setting (P D : Type 0) : Type 0 where
  pub tracked_programs : Bytes → Option (List (EventSpec D))
  pub event_authorities : Bytes → Option Bytes
  pub executed_batch_id : D → Option ℕ
  pub unmarshal_payload : Bytes → Option P
  pub marshal_payload : P → Option Bytes
  pub payload_batch_id : P → ℕ
  pub sha256 : Bytes → Bytes
  pub ed25519_program : Bytes
  pub get_transaction : Bytes → Option (Option TransactionResponse)
  pub add_event : Event D → Bool

pub data ProcessError : Type 0 where
  storage_error : StoreError → ProcessError
  no_transaction : ProcessError
  no_meta : ProcessError
  not_decoded : ProcessError
  block_error : RetryError TryAgain → ProcessError
  no_block : ProcessError
  no_block_height : ProcessError
  not_added : ProcessError

pub data ParseError : Type 0 where
  no_discriminator : ParseError
  not_unmarshalled : ParseError

-- What is persisted, and what the subscriber was given, in order.
pub record Progress (S D : Type 0) : Type 0 where
  pub stored : S
  pub delivered : List (Event D)

abbrev pub transaction_executed_event : Bytes
transaction_executed_event =
    b'T' ∷ b'r' ∷ b'a' ∷ b'n' ∷ b's' ∷ b'a' ∷ b'c' ∷ b't' ∷ b'i' ∷ b'o' ∷ b'n' ∷ b'E' ∷ b'x' ∷ b'e'
    ∷ b'c' ∷ b'u' ∷ b't' ∷ b'e' ∷ b'd' ∷ b'E' ∷ b'v' ∷ b'e' ∷ b'n' ∷ b't' ∷ []

module _ {P D : Type 0} (setting : Setting P D) where
  -- The loop of `parseEvent` over the event specifications of the program.
  unfoldable pub parse_with :
      List (EventSpec D) → Bytes → Bytes → Result ParseError (Option (D × Bytes))
  parse_with [] discriminator rest = ok none
  parse_with (spec ∷ specs) discriminator rest =
      let later = parse_with specs discriminator rest in
      if bytes_eq spec.discriminant discriminator
      then (or_fail (spec.unmarshal rest) not_unmarshalled ⟫= λ d. ok (some (d, spec.name)))
      else later

  abbrev parse_tracked :
      Option (List (EventSpec D)) → Bytes → Bytes → Result ParseError (Option (D × Bytes))
  parse_tracked none discriminator rest = ok none
  parse_tracked (some specs) discriminator rest = parse_with specs discriminator rest

  unfoldable pub parse_event : Bytes → Bytes → Result ParseError (Option (D × Bytes))
  parse_event event_data program_id =
      if ltb (length event_data) 8
      then err no_discriminator
      else parse_tracked (setting.tracked_programs program_id) (take 8 event_data)
          (drop 8 event_data)

  unfoldable pub collect_transaction_events : List InnerInstruction → List Bytes → List EmittedEvent
  collect_transaction_events inner account_keys =
      collect_cpi_events account_keys setting.event_authorities inner

  -- The hash of the executed batch's payload, or none for an event that is passed over.
  abbrev hash_of : Result FindError P → Result ProcessError (Option Bytes)
  hash_of (ok p) = elim (setting.marshal_payload p) [
    | none ↦ ok none
    | some v ↦ ok (some (setting.sha256 v))
  ]
  hash_of (err e) = ok none
  hash_of panic = panic

  abbrev executed_hash :
      List Instruction → List Bytes → ℕ → Option ℕ → Result ProcessError (Option Bytes)
  executed_hash instructions keys top_level_index none = ok none
  executed_hash instructions keys top_level_index (some batch) = hash_of (
      find_batch_payload_at_instruction setting.unmarshal_payload setting.payload_batch_id
        setting.ed25519_program instructions keys top_level_index batch)

  unfoldable pub inner_action_hash :
      List Instruction → List Bytes → ℕ → D → Bytes → Result ProcessError (Option Bytes)
  inner_action_hash instructions keys top_level_index parsed name =
      if bytes_eq name transaction_executed_event
      then executed_hash instructions keys top_level_index (setting.executed_batch_id parsed)
      else ok (some (replicate 32 0))

  abbrev height_of : Option Block × Option (RetryError TryAgain) → Result ProcessError ℕ
  height_of (block, some e) = err (block_error e)
  height_of (none, none) = err no_block
  height_of (some block, none) = or_fail block.block_height no_block_height

-- `node n` gives the answers to the requests that are made for the transaction's n-th emitted event.
module _ {P D S : Type 0} (setting : Setting P D) (storage : StorageHandler S D)
    (node : ℕ → Node) where
  abbrev keeping :
      {A : Type 0} → Progress S D → Result ProcessError A × S → Result ProcessError A × Progress S D
  keeping g (r, s) = (r, record g { stored = s })

  -- A call on the storage.
  abbrev call : {A : Type 0} → (S → Result StoreError A × S) → Action ProcessError (Progress S D) A
  call m g = keeping g (storing storage_error m g.stored)

  abbrev delivered_if : Bool → Event D → Action ProcessError (Progress S D) (Unit {0})
  delivered_if true event g = (ok tt, record g { delivered = g.delivered ++ event ∷ [] })
  delivered_if false event g = (err not_added, g)

  -- The notification, and the record of it.
  unfoldable pub notify : Event D → Action ProcessError (Progress S D) (Unit {0})
  notify event = do delivered_if (setting.add_event event) event; call (storage.store_event event)

  unfoldable pub handle_event :
      ℕ
      → Bytes
      → ℕ
      → EmittedEvent
      → D
      → Bytes
      → Bytes
      → Action ProcessError (Progress S D) (Unit {0})
  handle_event n signature slot emitted parsed name hash = do
    height ← computed (height_of setting (fetch_block (node n) slot))
    call (storage.store_latest_finalized_block_number height)
    notify (record {
      slot = slot;
      block_number = height;
      tx_signature = signature;
      program = emitted.program_id;
      event_name = name;
      inner_action_hash = hash;
      event_data = parsed;
    })

  abbrev with_hash :
      ℕ
      → Bytes
      → ℕ
      → EmittedEvent
      → D
      → Bytes
      → Option Bytes
      → Action ProcessError (Progress S D) (Unit {0})
  with_hash n signature slot emitted parsed name none = computed (ok tt)
  with_hash n signature slot emitted parsed name (some hash) =
      handle_event n signature slot emitted parsed name hash

  -- An event that cannot be parsed, that no specification fits, or whose payload is not found is
  -- passed over.
  abbrev handle_parsed :
      ℕ
      → List Instruction
      → List Bytes
      → Bytes
      → ℕ
      → EmittedEvent
      → Result ParseError (Option (D × Bytes))
      → Action ProcessError (Progress S D) (Unit {0})
  handle_parsed n instructions keys signature slot emitted (ok (some (parsed, name))) = do
    hash ←
        computed (inner_action_hash setting instructions keys emitted.top_level_index parsed name)
    with_hash n signature slot emitted parsed name hash
  handle_parsed n instructions keys signature slot emitted (ok none) = computed (ok tt)
  handle_parsed n instructions keys signature slot emitted (err e) = computed (ok tt)
  handle_parsed n instructions keys signature slot emitted panic = computed panic

  -- The processing loop, from the n-th emitted event on.
  unfoldable pub handle_events :
      ℕ
      → List Instruction
      → List Bytes
      → Bytes
      → ℕ
      → List EmittedEvent
      → Action ProcessError (Progress S D) (Unit {0})
  handle_events n instructions keys signature slot [] = computed (ok tt)
  handle_events n instructions keys signature slot (emitted ∷ rest) = do
    handle_parsed n instructions keys signature slot emitted
        (parse_event setting emitted.event_data emitted.program_id)
    handle_events (suc n) instructions keys signature slot rest

  abbrev finalize : Bytes → Action ProcessError (Progress S D) (Unit {0})
  finalize signature = call (storage.finalize_processed_transaction signature)

  abbrev with_inner :
      Bytes
      → ℕ
      → TransactionMeta
      → Transaction
      → Option (List InnerInstruction)
      → Action ProcessError (Progress S D) (Unit {0})
  with_inner signature slot meta transaction none = finalize signature
  with_inner signature slot meta transaction (some inner) = do
    handle_events 0 transaction.instructions
        (transaction_account_keys transaction.account_keys meta.loaded_writable
          meta.loaded_read_only)
        signature slot
        (collect_transaction_events setting inner (
          transaction_account_keys transaction.account_keys meta.loaded_writable
            meta.loaded_read_only))
    finalize signature

  abbrev process_meta :
      Bytes
      → TransactionResponse
      → TransactionMeta
      → Bool
      → Action ProcessError (Progress S D) (Unit {0})
  process_meta signature response meta true = finalize signature
  process_meta signature response meta false = do
    transaction ← computed (or_fail response.transaction not_decoded)
    with_inner signature response.slot meta transaction meta.inner_instructions

  -- A failed transaction, and one without inner instructions, is finalized without its events.
  unfoldable pub process_response :
      Bytes → TransactionResponse → Action ProcessError (Progress S D) (Unit {0})
  process_response signature response = do
    meta ← computed (or_fail response.meta no_meta)
    process_meta signature response meta meta.failed

  abbrev answered : Option (Option TransactionResponse) → Result ProcessError TransactionResponse
  answered none = err no_transaction
  answered (some response) = or_fail response no_transaction

  abbrev process_new : Bytes → Bool → Action ProcessError (Progress S D) (Unit {0})
  process_new signature true = finalize signature
  process_new signature false = do
    response ← computed (answered (setting.get_transaction signature))
    process_response signature response

  -- A front that was already processed is dropped.
  abbrev process_front : List TxPoint → Action ProcessError (Progress S D) (Unit {0})
  process_front [] = computed (ok tt)
  process_front (front ∷ rest) = do
    last_processed ← call storage.get_last_processed_transaction
    process_new front.tx_signature (bytes_eq front.tx_signature last_processed.tx_signature)

  unfoldable pub fetch_next_get_full_tx_by_signature : Action ProcessError (Progress S D) (Unit {0})
  fetch_next_get_full_tx_by_signature = do
    unprocessed ← call storage.get_all_unprocessed_transactions
    process_front unprocessed
