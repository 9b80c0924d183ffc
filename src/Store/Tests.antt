-- ===== src/Store/Tests.antt =====
-- The theorems on the store, applied to concrete stores.
use native.Mathlib.Decide.{ℕ_discrete}
use solana_infrastructure.Base.{
  leb, sym, subst, ap, keep, ◌≢◌, ℕ, ◌+◌, ◌<◌, ◌≤◌, ◌≡◌, refl, Bool, true, false, List, [], ◌∷◌,
  ◌++◌, none, some, ok, err, length, replicate, arith, if◌then◌else◌, ◌==◌,
}
use solana_infrastructure.Base.Bytes.{Bytes, u64_mod, bytes_eq, encode_uint64, decode_uint64}
use solana_infrastructure.Store.Bolt.{BucketName}
use solana_infrastructure.Store.Codec.{EventRecord}
use solana_infrastructure.Store.Data.{
  StoreError, BlockPoint, zero_tx_point, encode_tx_point, tx_point_from_bucket_value,
  tx_point-encode_tx_point,
}
use solana_infrastructure.Store.Monad.{nil_tx}
use solana_infrastructure.Store.Memory.{Memory, memory, memory-BoltLaws, empty_memory, find_entry}
use solana_infrastructure.Store.Samples.{
  first_tx-IsTxPoint, second_tx-IsTxPoint, sample_codec, sample_codec-CodecLaws, opened, first_tx,
  second_tx, one_queued, sample_block, sample_event,
}
use solana_infrastructure.Store.Bolt.{Bolt, BoltLaws, same_bucket}
use solana_infrastructure.Store.Data.{latest_block_point_key, counter_key}
use solana_infrastructure.Store.Queue.Keys.{bytes_eq-encode_uint64}
use solana_infrastructure.Store.Blocks.{
  store_block, get_latest_block_point, get_blockhash_by_slot, get_block_number_by_blockhash,
}
use solana_infrastructure.Store.Blocks.Lookup.{
  IsNewest, get_blockhash_by_slot-newest, get_blockhash_by_slot-none, store_block-found,
}
use solana_infrastructure.Store.Events.{
  bytes_or_nil, event_record, store_event, get_events_by_slot, get_events_by_block_number,
}
use solana_infrastructure.Store.Events.Log.{Records, id_bytes, of_block}
use solana_infrastructure.Store.Events.Read.{readers-Records}
use solana_infrastructure.Store.Events.Write.{store_event-Records}
use solana_infrastructure.Store.Open.{new_bolt_storage_handler}
use solana_infrastructure.Store.Open.Fresh.{
  empty_log, new_bolt_storage_handler-fresh, new_bolt_storage_handler-Represents,
}
use solana_infrastructure.Store.Queue.{
  non_empty, push_unprocessed_transactions, finalize_processed_transaction,
  get_all_unprocessed_transactions, get_last_processed_transaction, get_latest_queried_transaction,
}
use solana_infrastructure.Store.Queue.Log.{
  finalize_outcome, TxLog, Call, pushes, finalizes, sets_last_processed, spec, Represents,
}
use solana_infrastructure.Store.Queue.Push.{push_unprocessed_transactions-Represents}
use solana_infrastructure.Store.Queue.Finalize.{finalize_processed_transaction-Represents}
use solana_infrastructure.Store.Queue.History.{
  readers-Represents, run_calls, History, run_calls-Represents,
}

tx_point-encode_tx_point_example :
    tx_point_from_bucket_value (encode_tx_point first_tx) ≡ ok first_tx
tx_point-encode_tx_point_example =
    tx_point-encode_tx_point first_tx (record { sized = refl; slot_fits = omega arith })

abbrev one_log : TxLog
one_log = record empty_log { queue = first_tx ∷ [] }

one_queued-Represents : Represents memory one_queued one_log 1
unfolding find_entry bytes_eq encode_uint64 decode_uint64
one_queued-Represents = record {
  head = 0;
  bucket = refl;
  head_stored = refl;
  tail_stored = refl;
  spans = refl;
  tail_fits = omega arith;
  entries = (refl, first_tx-IsTxPoint, tt);
  processed_stored = refl;
  queried_stored = refl;
}

new_bolt_storage_handler-fresh_example :
    (t' : Memory) × (new_bolt_storage_handler memory empty_memory ≡ (ok tt, t'))
    × Represents memory t' empty_log 0
unfolding find_entry
new_bolt_storage_handler-fresh_example =
    new_bolt_storage_handler-fresh memory memory-BoltLaws (λ t. refl) empty_memory (λ k. refl)

new_bolt_storage_handler-Represents_example :
    (t' : Memory) × (new_bolt_storage_handler memory one_queued ≡ (ok tt, t'))
    × Represents memory t' one_log 1
new_bolt_storage_handler-Represents_example =
    new_bolt_storage_handler-Represents memory memory-BoltLaws (λ t. refl) one_queued one_log 1
      one_queued-Represents

push_unprocessed_transactions-Represents_example :
    (t' : Memory) × (push_unprocessed_transactions memory
        (zero_tx_point ∷ second_tx ∷ [])
        one_queued
      ≡ (ok tt, t'))
    × Represents memory t'
        (spec (pushes (zero_tx_point ∷ second_tx ∷ [])) one_log)
        (1 + length (non_empty (zero_tx_point ∷ second_tx ∷ [])))
push_unprocessed_transactions-Represents_example =
    push_unprocessed_transactions-Represents memory memory-BoltLaws (λ t. refl)
      (zero_tx_point ∷ second_tx ∷ []) one_queued one_log 1 one_queued-Represents
      (record { sized = refl; slot_fits = omega arith }, (second_tx-IsTxPoint, tt)) (omega arith)

finalize_processed_transaction-Represents_example :
    (t' : Memory) × (finalize_processed_transaction memory (replicate 64 1) one_queued
      ≡ (finalize_outcome (replicate 64 1) (first_tx ∷ []), t'))
    × Represents memory t' (spec (finalizes (replicate 64 1)) one_log) 1
finalize_processed_transaction-Represents_example =
    finalize_processed_transaction-Represents memory memory-BoltLaws (λ t. refl) (replicate 64 1)
      one_queued one_log 1 one_queued-Represents

readers-Represents_example :
    (get_all_unprocessed_transactions memory one_queued ≡ (ok (first_tx ∷ []), one_queued))
    × (get_last_processed_transaction memory one_queued ≡ (ok zero_tx_point, one_queued))
    × (get_latest_queried_transaction memory one_queued ≡ (ok zero_tx_point, one_queued))
readers-Represents_example = readers-Represents memory one_queued one_log 1 one_queued-Represents

abbrev sample_calls : List Call
sample_calls =
    pushes (second_tx ∷ [])
    ∷ finalizes (replicate 64 2)
    ∷ finalizes (replicate 64 1)
    ∷ sets_last_processed second_tx
    ∷ []

-- A bolt that refuses to commit a queue's bucket with more than three entries.
abbrev full_bolt : Bolt
full_bolt = record memory {
  commits = λ t. leb (length (t.cells BucketName.unprocessed_tx_signatures)) 3;
}

full_bolt-BoltLaws : BoltLaws full_bolt
full_bolt-BoltLaws = record {
  create_succeeds = memory-BoltLaws.create_succeeds;
  has_bucket-create = memory-BoltLaws.has_bucket-create;
  get-create = memory-BoltLaws.get-create;
  entries-create = memory-BoltLaws.entries-create;
  has_bucket-put = memory-BoltLaws.has_bucket-put;
  get-put = memory-BoltLaws.get-put;
  entries-put = memory-BoltLaws.entries-put;
  put_succeeds = memory-BoltLaws.put_succeeds;
  has_bucket-delete = memory-BoltLaws.has_bucket-delete;
  get-delete = memory-BoltLaws.get-delete;
  delete_succeeds = memory-BoltLaws.delete_succeeds;
}

full_one_queued-Represents : Represents full_bolt one_queued one_log 1
full_one_queued-Represents = record {
  head = one_queued-Represents.head;
  bucket = one_queued-Represents.bucket;
  head_stored = one_queued-Represents.head_stored;
  tail_stored = one_queued-Represents.tail_stored;
  spans = one_queued-Represents.spans;
  tail_fits = one_queued-Represents.tail_fits;
  entries = one_queued-Represents.entries;
  processed_stored = one_queued-Represents.processed_stored;
  queried_stored = one_queued-Represents.queried_stored;
}

run_calls-Represents_example :
    (s' : TxLog) × (tail' : ℕ) × History full_bolt sample_calls
      (run_calls full_bolt sample_calls one_queued).0
      one_log
      s'
    × Represents full_bolt (run_calls full_bolt sample_calls one_queued).1 s' tail'
run_calls-Represents_example =
    run_calls-Represents full_bolt full_bolt-BoltLaws sample_calls one_queued one_log 1
      full_one_queued-Represents ((second_tx-IsTxPoint, tt), (tt, (tt, (second_tx-IsTxPoint, tt))))
      (omega arith)

-- A block at slot 3, and the chain head at slot 6.
abbrev head_block : BlockPoint
head_block = record { block_slot = 6; block_hash = replicate 32 8; block_number = 4 }

abbrev one_block : Memory
one_block = record {
  present = λ m. true;
  cells = λ m.
      if same_bucket m BucketName.blocks
      then (encode_uint64 3, 3 ∷ 2 ∷ replicate 32 7) ∷ []
      else if same_bucket m BucketName.latest_block_point
      then (latest_block_point_key, 6 ∷ 4 ∷ replicate 32 8) ∷ []
      else [];
}

head_stored :
    get_latest_block_point memory sample_codec one_block ≡ (ok (some head_block), one_block)
unfolding get_latest_block_point find_entry bytes_eq
head_stored = refl

nothing_between :
    (j : ℕ) → 3 < j → j ≤ 5 → memory.get BucketName.blocks (encode_uint64 j) one_block ≡ none
unfolding find_entry
nothing_between j lo hi =
    let other : (j == 3) ≡ false = ground arith in
    rw (bytes_eq-encode_uint64 j 3 (omega arith) (omega arith), other, if◌then◌else◌) refl

five-IsNewest : IsNewest memory sample_codec sample_block 5 one_block
unfolding find_entry bytes_eq encode_uint64
five-IsNewest = record {
  text = 3 ∷ 2 ∷ replicate 32 7;
  at_or_below = omega arith;
  stored = refl;
  reads = refl;
  skipped = nothing_between;
}

get_blockhash_by_slot-newest_example :
    get_blockhash_by_slot memory sample_codec 5 one_block ≡ (ok (replicate 32 7), one_block)
get_blockhash_by_slot-newest_example =
    get_blockhash_by_slot-newest memory sample_codec 5 one_block head_block sample_block head_stored
      refl (omega arith) five-IsNewest

nothing_below : (j : ℕ) → j ≤ 2 → memory.get BucketName.blocks (encode_uint64 j) one_block ≡ none
unfolding find_entry
nothing_below j hi =
    let other : (j == 3) ≡ false = ground arith in
    rw (bytes_eq-encode_uint64 j 3 (omega arith) (omega arith), other, if◌then◌else◌) refl

get_blockhash_by_slot-none_example :
    get_blockhash_by_slot memory sample_codec 2 one_block ≡ (err StoreError.not_found, one_block)
get_blockhash_by_slot-none_example =
    get_blockhash_by_slot-none memory sample_codec 2 one_block head_block head_stored refl
      (omega arith) nothing_below

-- The chain head at slot 6, and no block.
abbrev headed : Memory
headed = record opened {
  cells = λ m.
      if same_bucket m BucketName.latest_block_point
      then (latest_block_point_key, 6 ∷ 4 ∷ replicate 32 8) ∷ []
      else opened.cells m;
}

head_there : get_latest_block_point memory sample_codec headed ≡ (ok (some head_block), headed)
unfolding get_latest_block_point find_entry bytes_eq
head_there = refl

store_block-found_example :
    (t' : Memory) × (store_block memory sample_codec nil_tx sample_block headed
      ≡ (ok tt, record { db = t'; tx = nil_tx }))
    × (get_block_number_by_blockhash memory sample_codec (replicate 32 7) t' ≡ (ok 2, t'))
    × (get_blockhash_by_slot memory sample_codec 5 t' ≡ (ok (replicate 32 7), t'))
unfolding find_entry
store_block-found_example =
    store_block-found memory sample_codec memory-BoltLaws sample_codec-CodecLaws (λ t. refl)
      sample_block head_block (3 ∷ 2 ∷ replicate 32 7) headed 5
      (record {
        blocks_there = refl;
        hashes_there = refl;
        marshalled = refl;
        text_fits = omega arith;
        hash_sized = refl;
        slot_fits = omega arith;
        number_fits = omega arith;
      })
      head_there (omega arith) (omega arith) (omega arith) (λ j lo hi. refl)

opened-Records : Records memory sample_codec opened []
unfolding find_entry
opened-Records = record {
  values = [];
  counter_there = refl;
  events_there = refl;
  index_there = refl;
  counter = refl;
  fits = omega arith;
  stored = tt;
  listed = refl;
  none_processed = refl;
  index = λ n h. refl;
}

-- The text of the sample event's record under id 1.
abbrev event_text : Bytes
event_text =
    1
    ∷ 9
    ∷ 8
    ∷ 42
    ∷ 64
    ∷ 32
    ∷ 1
    ∷ (replicate 64 1 ++ (replicate 32 4 ++ ((69 ∷ []) ++ replicate 32 0)))

store_event-Records_example :
    (t' : Memory) × (store_event memory sample_codec nil_tx sample_event opened
      ≡ (ok tt, record { db = t'; tx = nil_tx }))
    × Records memory sample_codec t' ([] ++ event_record sample_codec 1 sample_event 42 ∷ [])
unfolding event_record
store_event-Records_example =
    store_event-Records memory sample_codec memory-BoltLaws sample_codec-CodecLaws (λ t. refl)
      sample_event opened [] 42 event_text opened-Records
      (record {
        converts = refl;
        marshalled = refl;
        text_fits = omega arith;
        id_fits = omega arith;
        block_fits = omega arith;
        index_fits = omega arith;
      })

-- One event is stored.
abbrev one_event : Memory
one_event = record {
  present = λ m. true;
  cells = λ m.
      if same_bucket m BucketName.unprocessed_events
      then (encode_uint64 1, event_text) ∷ []
      else if same_bucket m BucketName.event_id_counter
      then (counter_key, encode_uint64 1) ∷ []
      else if same_bucket m BucketName.event_ids_by_block_number
      then (encode_uint64 8, encode_uint64 1) ∷ []
      else [];
}

abbrev one_record : EventRecord ℕ
one_record = record {
  id = 1;
  slot = 9;
  block_number = 8;
  tx_signature = replicate 64 1;
  program = replicate 32 4;
  event_type = 69 ∷ [];
  inner_action_hash = replicate 32 0;
  event_map = 42;
}

abbrev index_value : ℕ → Bytes
index_value n =
    bytes_or_nil (memory.get BucketName.event_ids_by_block_number (encode_uint64 n) one_event)

at_eight : index_value 8 ≡ id_bytes (of_block 8 (one_record ∷ []))
unfolding find_entry bytes_eq encode_uint64
at_eight = refl

keep_none : (p : EventRecord ℕ → Bool) (r : EventRecord ℕ) → p r ≡ false → keep p (r ∷ []) ≡ []
keep_none p r e = ground (arith, e)

elsewhere : (n : ℕ) → n < u64_mod → n ≢ 8 → index_value n ≡ id_bytes (of_block n (one_record ∷ []))
unfolding find_entry
elsewhere n h ne =
    let other : (n == 8) ≡ false = ground arith in
    let other' : (8 == n) ≡ false = ground arith in
    rw (bytes_eq-encode_uint64 n 8 h (omega arith), other, if◌then◌else◌)
      (ap id_bytes (sym (keep_none (λ r. r.block_number == n) one_record other')))

one_event-index : (n : ℕ) → n < u64_mod → index_value n ≡ id_bytes (of_block n (one_record ∷ []))
one_event-index n h = elim (ℕ_discrete 8 n) [
  | yes e ↦ subst (λ k. index_value k ≡ id_bytes (of_block k (one_record ∷ []))) e at_eight
  | no ne ↦ elsewhere n h (λ e. ne (sym e))
]

one_event-Records : Records memory sample_codec one_event (one_record ∷ [])
unfolding find_entry bytes_eq encode_uint64 decode_uint64
one_event-Records = record {
  values = event_text ∷ [];
  counter_there = refl;
  events_there = refl;
  index_there = refl;
  counter = refl;
  fits = omega arith;
  stored = (refl, refl, refl, tt);
  listed = refl;
  none_processed = refl;
  index = one_event-index;
}

readers-Records_example :
    (get_events_by_slot memory sample_codec 8 one_event ≡ (ok [], one_event))
    × (get_events_by_block_number memory sample_codec 8 one_event
        ≡ (ok (one_record ∷ []), one_event))
readers-Records_example =
    readers-Records memory sample_codec 8 one_event (one_record ∷ []) one_event-Records
      (omega arith)
