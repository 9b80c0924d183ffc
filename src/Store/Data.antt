-- ===== src/Store/Data.antt =====
-- The records of bolt_storage_handler.go, its keys, and the byte format of a queue entry.
use solana_infrastructure.Base.{
  append-nil, ℕ, ◌<◌, ◌≡◌, [], ◌∷◌, ◌++◌, Result, ok, ◌>>=◌, ◌>>◌, guard, length, length-append,
  take, drop, replicate, take-append, drop-append, ltb, ◌==◌, if◌then◌else◌, ◌||◌, arith,
}
use solana_infrastructure.Base.Bytes.{
  Bytes, u64_mod, encode_uint64, decode_uint64, decode-encode_uint64, length-encode_uint64,
}

-- The errors that the handler's methods return, without their texts.
pub data StoreError : Type 0 where
  bucket_missing : StoreError
  bolt_error : StoreError
  marshal_error : StoreError
  unmarshal_error : StoreError
  invalid_length : ℕ → StoreError
  corrupt_queue : StoreError
  corrupt_index : ℕ → StoreError → StoreError
  queue_empty : StoreError
  not_at_front : Bytes → Bytes → StoreError
  event_missing : ℕ → StoreError
  invalid_signature : ℕ → StoreError
  not_found : StoreError
  no_chain_head : StoreError
  beyond_chain_head : ℕ → StoreError
  unknown_transaction : StoreError

pub record BlockPoint : Type 0 where
  pub block_slot : ℕ
  pub block_hash : Bytes
  pub block_number : ℕ

-- `tx_signature` is an array of 64 bytes.
pub record TxPoint : Type 0 where
  pub tx_signature : Bytes
  pub slot : ℕ

abbrev pub signature_length : ℕ
signature_length = 64

abbrev pub zero_signature : Bytes
zero_signature = replicate 64 0

abbrev pub zero_tx_point : TxPoint
zero_tx_point = record { tx_signature = zero_signature; slot = 0 }

-- What Go's types guarantee of a TxPoint.
pub record IsTxPoint (p : TxPoint) : Type 0 where
  pub sized : length p.tx_signature ≡ signature_length
  pub slot_fits : p.slot < u64_mod

-- []byte("head") and the other keys.
abbrev pub head_key : Bytes
head_key = b'h' ∷ b'e' ∷ b'a' ∷ b'd' ∷ []

abbrev pub tail_key : Bytes
tail_key = b't' ∷ b'a' ∷ b'i' ∷ b'l' ∷ []

abbrev pub last_processed_key : Bytes
last_processed_key =
    b'l' ∷ b'a' ∷ b's' ∷ b't' ∷ b'_' ∷ b'p' ∷ b'r' ∷ b'o' ∷ b'c' ∷ b'e' ∷ b's' ∷ b's' ∷ b'e' ∷ b'd'
    ∷ []

abbrev pub last_queried_key : Bytes
last_queried_key =
    b'l' ∷ b'a' ∷ b's' ∷ b't' ∷ b'_' ∷ b'q' ∷ b'u' ∷ b'e' ∷ b'r' ∷ b'i' ∷ b'e' ∷ b'd' ∷ []

abbrev pub counter_key : Bytes
counter_key = b'c' ∷ b'o' ∷ b'u' ∷ b'n' ∷ b't' ∷ b'e' ∷ b'r' ∷ []

abbrev pub latest_block_point_key : Bytes
latest_block_point_key =
    b'l' ∷ b'a' ∷ b't' ∷ b'e' ∷ b's' ∷ b't' ∷ b'B' ∷ b'l' ∷ b'o' ∷ b'c' ∷ b'k' ∷ b'P' ∷ b'o' ∷ b'i'
    ∷ b'n' ∷ b't' ∷ b'K' ∷ b'e' ∷ b'y' ∷ []

abbrev pub latest_finalized_block_number_key : Bytes
latest_finalized_block_number_key =
    b'l' ∷ b'a' ∷ b't' ∷ b'e' ∷ b's' ∷ b't' ∷ b'_' ∷ b'f' ∷ b'i' ∷ b'n' ∷ b'a' ∷ b'l' ∷ b'i' ∷ b'z'
    ∷ b'e' ∷ b'd' ∷ b'_' ∷ b'b' ∷ b'l' ∷ b'o' ∷ b'c' ∷ b'k' ∷ b'_' ∷ b'n' ∷ b'u' ∷ b'm' ∷ b'b'
    ∷ b'e' ∷ b'r' ∷ b'_' ∷ b'k' ∷ b'e' ∷ b'y' ∷ []

unfoldable pub encode_tx_point : TxPoint → Bytes
encode_tx_point p = p.tx_signature ++ encode_uint64 p.slot

-- The signature is the first 64 bytes; a value without a slot decodes with slot 0.
unfoldable pub tx_point_from_bucket_value : Bytes → Result StoreError TxPoint
tx_point_from_bucket_value value = do
  guard (length value == 64 || length value == 72) (invalid_length (length value))
  slot ← if ltb 64 (length value) then decode_uint64 (drop 64 value) else ok 0
  ok (record { tx_signature = take 64 value; slot = slot })

pub length-encode_tx_point : (p : TxPoint) → IsTxPoint p → length (encode_tx_point p) ≡ 72
unfolding encode_tx_point
length-encode_tx_point p h =
    omega (arith, length-append p.tx_signature (encode_uint64 p.slot), length-encode_uint64 p.slot)

take-encode_tx_point : (p : TxPoint) → IsTxPoint p → take 64 (encode_tx_point p) ≡ p.tx_signature
unfolding encode_tx_point
take-encode_tx_point p h = take-append 64 p.tx_signature (encode_uint64 p.slot) h.sized

slot-encode_tx_point :
    (p : TxPoint)
    → IsTxPoint p
    → decode_uint64 {E = StoreError} (drop 64 (encode_tx_point p)) ≡ ok p.slot
unfolding encode_tx_point
slot-encode_tx_point p h =
    rw (drop-append 64 p.tx_signature (encode_uint64 p.slot) h.sized)
      (rw append-nil at (decode-encode_uint64 {E = StoreError} p.slot [] h.slot_fits))

-- Decoding gives back the TxPoint that was encoded.
pub tx_point-encode_tx_point :
    (p : TxPoint) → IsTxPoint p → tx_point_from_bucket_value (encode_tx_point p) ≡ ok p
unfolding tx_point_from_bucket_value
tx_point-encode_tx_point p h =
    rw (length-encode_tx_point p h, slot-encode_tx_point p h, take-encode_tx_point p h)
