-- ===== src/Store/Samples.antt =====
-- Concrete stores and records to run the handler's methods on.
use solana_infrastructure.Base.{
  arith, ℕ, ◌≡◌, refl, sym, ap, ◌∙◌, true, List, [], ◌∷◌, ◌++◌, Option, none, some, length,
  replicate, take, drop, take-append, drop-append, if◌then◌else◌,
}
use solana_infrastructure.Base.Bytes.{Bytes, encode_uint64}
use solana_infrastructure.Store.Bolt.{BucketName, same_bucket}
use solana_infrastructure.Store.Codec.{Codec, CodecLaws, EventRecord}
use solana_infrastructure.Store.Data.{BlockPoint, TxPoint, IsTxPoint, tail_key, encode_tx_point}
use solana_infrastructure.Store.Events.{Event}
use solana_infrastructure.Store.Memory.{Memory, memory, find_entry}
use solana_infrastructure.Store.Open.Fresh.{empty_log}
use solana_infrastructure.Store.Queue.Log.{Represents}

-- A format with the lengths of the texts in front; a map of event data is one number.
abbrev write_record : EventRecord ℕ → Bytes
write_record r =
    r.id
    ∷ r.slot
    ∷ r.block_number
    ∷ r.event_map
    ∷ length r.tx_signature
    ∷ length r.program
    ∷ length r.event_type
    ∷ (r.tx_signature ++ (r.program ++ (r.event_type ++ r.inner_action_hash)))

abbrev read_record : Bytes → Option (EventRecord ℕ)
read_record (id ∷ slot ∷ block_number ∷ m ∷ a ∷ b ∷ c ∷ rest) = some (record {
  id = id;
  slot = slot;
  block_number = block_number;
  tx_signature = take a rest;
  program = take b (drop a rest);
  event_type = take c (drop b (drop a rest));
  inner_action_hash = drop c (drop b (drop a rest));
  event_map = m;
})
read_record _ = none

take-length : (xs ys : Bytes) → take (length xs) (xs ++ ys) ≡ xs
take-length xs ys = take-append (length xs) xs ys refl

drop-length : (xs ys : Bytes) → drop (length xs) (xs ++ ys) ≡ ys
drop-length xs ys = drop-append (length xs) xs ys refl

read-write_record : (r : EventRecord ℕ) → read_record (write_record r) ≡ some r
read-write_record r = simp (take-length, drop-length)

abbrev write_point : BlockPoint → Bytes
write_point p = p.block_slot ∷ p.block_number ∷ p.block_hash

abbrev read_point : Bytes → Option BlockPoint
read_point (slot ∷ n ∷ hash) =
    some (record { block_slot = slot; block_hash = hash; block_number = n })
read_point _ = none

abbrev pub sample_codec : Codec
sample_codec = record {
  EventData = ℕ;
  DataMap = ℕ;
  data_map = λ e. some e;
  marshal_record = λ r. some (write_record r);
  unmarshal_record = read_record;
  marshal_block_point = λ p. some (write_point p);
  unmarshal_block_point = read_point;
  signature_text = λ s. s;
  signature_from_base58 = λ s. some s;
  program_text = λ s. s;
}

pub some_value : {A : Type 0} (x y : A) → some x ≡ some y → x ≡ y
some_value x y e = cc

pub sample_codec-CodecLaws : CodecLaws sample_codec
sample_codec-CodecLaws = record {
  record_roundtrip =
      λ r v e. ap read_record (sym (some_value (write_record r) v e)) ∙ read-write_record r;
  block_point_roundtrip = λ p v e. ap read_point (sym (some_value (write_point p) v e));
  signature_roundtrip = λ s h. refl;
}

-- The store right after it was opened, and one with some content in one bucket.
abbrev pub with_cells : BucketName → List (Bytes × Bytes) → Memory
with_cells n l = record { present = λ m. true; cells = λ m. if same_bucket m n then l else [] }

abbrev pub opened : Memory
opened = record { present = λ m. true; cells = λ m. [] }

abbrev pub first_tx : TxPoint
first_tx = record { tx_signature = replicate 64 1; slot = 5 }

abbrev pub second_tx : TxPoint
second_tx = record { tx_signature = replicate 64 2; slot = 6 }

-- One transaction is queued.
abbrev pub one_queued : Memory
one_queued =
    with_cells BucketName.unprocessed_tx_signatures
      ((encode_uint64 0, encode_tx_point first_tx) ∷ (tail_key, encode_uint64 1) ∷ [])

abbrev pub sample_block : BlockPoint
sample_block = record { block_slot = 3; block_hash = replicate 32 7; block_number = 2 }

abbrev pub sample_event : Event ℕ
sample_event = record {
  slot = 9;
  block_number = 8;
  tx_signature = replicate 64 1;
  program = replicate 32 4;
  event_name = 69 ∷ [];
  inner_action_hash = replicate 32 0;
  event_data = 42;
}

pub first_tx-IsTxPoint : IsTxPoint first_tx
first_tx-IsTxPoint = record { sized = refl; slot_fits = omega arith }

pub second_tx-IsTxPoint : IsTxPoint second_tx
second_tx-IsTxPoint = record { sized = refl; slot_fits = omega arith }

pub opened-Represents : Represents memory opened empty_log 0
unfolding find_entry
opened-Represents = record {
  head = 0;
  bucket = refl;
  head_stored = refl;
  tail_stored = refl;
  spans = refl;
  tail_fits = omega arith;
  entries = tt;
  processed_stored = refl;
  queried_stored = refl;
}
