-- ===== src/Sendtx/Ed25519/Entries.antt =====
-- What the entries say that buildBatchedEd25519Instruction writes.
use solana_infrastructure.Base.{
  ℕ, suc, ◌+◌, ◌*◌, ◌/◌, ◌%◌, ◌<◌, ◌≤◌, ◌≡◌, refl, sym, ap, ◌∙◌, List, ◌∷◌, ◌++◌, append_assoc, All,
  ok, length, length-append, take, drop, drop-append, drop-append_add, take-length, arith,
}
use solana_infrastructure.Base.Bytes.{Bytes}
use solana_infrastructure.Tracker.Payload.{
  Offsets, entry_at, read_offsets, field, little_endian_uint16, message_of, current_instruction,
}
use solana_infrastructure.Sendtx.Ed25519.{
  SignaturePair, pub_key_length, sig_length, base_offset, shared_msg_offset, entry_bytes,
  entries_bytes, pairs_bytes,
}
use solana_infrastructure.Sendtx.Ed25519.Layout.{
  IsSized, All-split, length-entries_bytes, length-pairs_bytes, entries_bytes-append,
  pairs_bytes-append, take-drop-middle,
}

-- What entry `i` says: its fields, and what stands where they point.
pub record Verifies (raw : Bytes) (i : ℕ) (pair : SignaturePair) (payload : Bytes) : Type 0 where
  pub offsets : Offsets
  pub reads : read_offsets raw (entry_at i) ≡ ok offsets
  pub inside : entry_at i + 14 ≤ length raw
  pub own_signature : offsets.sig_ix ≡ current_instruction
  pub own_key : offsets.pub_key_ix ≡ current_instruction
  pub own_message : offsets.msg_ix ≡ current_instruction
  pub key : take pub_key_length (drop offsets.pub_key_offset raw) ≡ pair.pub_key
  pub signature : take sig_length (drop offsets.sig_offset raw) ≡ pair.signature
  pub message : message_of raw offsets ≡ payload
  pub key_inside : offsets.pub_key_offset + pub_key_length ≤ length raw
  pub signature_inside : offsets.sig_offset + sig_length ≤ length raw
  pub message_inside : offsets.msg_offset + offsets.msg_size ≤ length raw

-- The entry that buildBatchedEd25519Instruction writes.
abbrev entry : ℕ → ℕ → ℕ → Offsets
entry k m l = record {
  sig_offset = k + pub_key_length;
  sig_ix = current_instruction;
  pub_key_offset = k;
  pub_key_ix = current_instruction;
  msg_offset = m;
  msg_size = l;
  msg_ix = current_instruction;
}

field-front :
    (front ys : Bytes) (at j : ℕ)
    → length front ≡ at
    → field (front ++ ys) at j ≡ little_endian_uint16 (drop j ys)
unfolding field
field-front front ys at j e = ap little_endian_uint16 (drop-append_add at j front ys e)

uint16_bytes : (v : ℕ) → v < 65536 → v % 256 + v / 256 % 256 * 256 ≡ v
uint16_bytes v lt = omega arith

read_offsets-entry :
    (front rest : Bytes) (at k m l : ℕ)
    → length front ≡ at
    → k + pub_key_length < 65536
    → m < 65536
    → l < 65536
    → read_offsets (front ++ (entry_bytes k m l ++ rest)) at ≡ ok (entry k m l)
unfolding read_offsets entry_bytes little_endian_uint16
read_offsets-entry front rest at k m l e a b c =
    rw
      (
        field-front front (entry_bytes k m l ++ rest) at 0 e,
        field-front front (entry_bytes k m l ++ rest) at 2 e,
        field-front front (entry_bytes k m l ++ rest) at 4 e,
        field-front front (entry_bytes k m l ++ rest) at 6 e,
        field-front front (entry_bytes k m l ++ rest) at 8 e,
        field-front front (entry_bytes k m l ++ rest) at 10 e,
        field-front front (entry_bytes k m l ++ rest) at 12 e,
      )
      (rw
        (
          uint16_bytes (k + pub_key_length) a,
          uint16_bytes k (omega arith),
          uint16_bytes m b,
          uint16_bytes l c,
        )
        refl)

-- The data of the instruction.
abbrev pub data_of : List SignaturePair → Bytes → Bytes
data_of pairs payload =
    length pairs
    ∷ 0
    ∷ (entries_bytes (shared_msg_offset (length pairs)) (length payload)
          (base_offset (length pairs)) pairs
        ++ (pairs_bytes pairs ++ payload))

-- The data around one pair, cut at its entry, its key, its signature and the message.
module _ (before : List SignaturePair) (pair : SignaturePair) (after : List SignaturePair)
    (payload : Bytes) where
  abbrev all_pairs : List SignaturePair
  all_pairs = before ++ pair ∷ after

  abbrev entries : ℕ → List SignaturePair → Bytes
  entries = entries_bytes (shared_msg_offset (length all_pairs)) (length payload)

  -- Where the key of the pair starts.
  abbrev key_at : ℕ
  key_at = base_offset (length all_pairs) + length before * 96

  abbrev raw : Bytes
  raw = data_of all_pairs payload

  abbrev before_entry : Bytes
  before_entry = length all_pairs ∷ 0 ∷ entries (base_offset (length all_pairs)) before

  abbrev before_key : Bytes
  before_key =
      length all_pairs
      ∷ 0
      ∷ (entries (base_offset (length all_pairs)) all_pairs ++ pairs_bytes before)

  cut_entry :
      raw
      ≡ before_entry
        ++ (entry_bytes key_at (shared_msg_offset (length all_pairs)) (length payload)
            ++ (entries (key_at + 96) after ++ (pairs_bytes all_pairs ++ payload)))
  unfolding entries_bytes
  cut_entry =
      ap (λ (e : Bytes). length all_pairs ∷ 0 ∷ (e ++ (pairs_bytes all_pairs ++ payload)))
        (entries_bytes-append (shared_msg_offset (length all_pairs)) (length payload)
          (base_offset (length all_pairs)) before (pair ∷ after))
      ∙ simp append_assoc

  cut_key : raw ≡ before_key ++ (pair.pub_key ++ (pair.signature ++ (pairs_bytes after ++ payload)))
  unfolding pairs_bytes
  cut_key =
      ap
        (λ (e : Bytes).
          length all_pairs
          ∷ 0
          ∷ (entries (base_offset (length all_pairs)) all_pairs ++ (e ++ payload)))
        (pairs_bytes-append before (pair ∷ after))
      ∙ simp append_assoc

  cut_signature :
      raw ≡ (before_key ++ pair.pub_key) ++ (pair.signature ++ (pairs_bytes after ++ payload))
  cut_signature = cut_key ∙ sym (append_assoc before_key pair.pub_key _)

  cut_message :
      raw
      ≡ (length all_pairs
          ∷ 0
          ∷ (entries (base_offset (length all_pairs)) all_pairs ++ pairs_bytes all_pairs))
        ++ payload
  cut_message = simp append_assoc

  module _ (sized : All IsSized (before ++ pair ∷ after)) (few : length all_pairs ≤ 255)
      (short : length payload < 65536) where
    length-before_entry : length before_entry ≡ entry_at (length before)
    length-before_entry = omega (
      arith,
      length-entries_bytes (shared_msg_offset (length all_pairs)) (length payload)
          (base_offset (length all_pairs)) before,
    )

    length-before_key : length before_key ≡ key_at
    length-before_key = omega (
      arith,
      length-entries_bytes (shared_msg_offset (length all_pairs)) (length payload)
          (base_offset (length all_pairs)) all_pairs,
      length-append (entries (base_offset (length all_pairs)) all_pairs) (pairs_bytes before),
      length-pairs_bytes before (All-split before pair after sized).0,
    )

    length-before_signature : length (before_key ++ pair.pub_key) ≡ key_at + pub_key_length
    length-before_signature = omega (
      arith,
      length-append before_key pair.pub_key,
      length-before_key,
      (All-split before pair after sized).1.key_length,
    )

    before_message : Bytes
    before_message =
        length all_pairs
        ∷ 0
        ∷ (entries (base_offset (length all_pairs)) all_pairs ++ pairs_bytes all_pairs)

    length-before_message : length before_message ≡ shared_msg_offset (length all_pairs)
    unfolding before_message
    length-before_message = omega (
      arith,
      length-entries_bytes (shared_msg_offset (length all_pairs)) (length payload)
          (base_offset (length all_pairs)) all_pairs,
      length-append (entries (base_offset (length all_pairs)) all_pairs) (pairs_bytes all_pairs),
      length-pairs_bytes all_pairs sized,
    )

    length-raw : length raw ≡ shared_msg_offset (length all_pairs) + length payload
    unfolding before_message
    length-raw =
        ap length cut_message
        ∙ length-append before_message payload
        ∙ ap (λ (n : ℕ). n + length payload) length-before_message

    length-all_pairs : length all_pairs ≡ length before + suc (length after)
    length-all_pairs = length-append before (pair ∷ after)

    pub verifies : Verifies raw (length before) pair payload
    unfolding before_message
    verifies =
        let (_, s, _) = All-split before pair after sized in
        record {
          offsets = entry key_at (shared_msg_offset (length all_pairs)) (length payload);
          reads =
              ap (λ (x : Bytes). read_offsets x (entry_at (length before))) cut_entry
              ∙ read_offsets-entry before_entry _ (entry_at (length before)) key_at
                  (shared_msg_offset (length all_pairs)) (length payload) length-before_entry
                  (omega (arith, length-all_pairs)) (omega arith) short;
          inside = omega (arith, length-all_pairs, length-raw);
          own_signature = refl;
          own_key = refl;
          own_message = refl;
          key =
              ap (λ (x : Bytes). take pub_key_length (drop key_at x)) cut_key
              ∙ take-drop-middle before_key pair.pub_key _ key_at pub_key_length length-before_key
                  s.key_length;
          signature =
              ap (λ (x : Bytes). take sig_length (drop (key_at + pub_key_length) x)) cut_signature
              ∙ take-drop-middle (before_key ++ pair.pub_key) pair.signature _
                  (key_at + pub_key_length) sig_length length-before_signature s.signature_length;
          message =
              ap
                (λ (x : Bytes).
                  take (length payload) (drop (shared_msg_offset (length all_pairs)) x))
                cut_message
              ∙ ap (take (length payload)) (
                  drop-append (shared_msg_offset (length all_pairs)) before_message payload
                    length-before_message)
              ∙ take-length payload;
          key_inside = omega (arith, length-all_pairs, length-raw);
          signature_inside = omega (arith, length-all_pairs, length-raw);
          message_inside = omega (arith, length-raw);
        }
