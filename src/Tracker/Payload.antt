-- ===== src/Tracker/Payload.antt =====
-- tracker/payload_parser.go: the payload that the validators signed, from the data of an ed25519
-- instruction.
pub mod Signed
use solana_infrastructure.Base.{
  ℕ, zero, suc, ◌+◌, ◌*◌, Bool, true, false, ◌&&◌, ◌||◌, List, [], ◌∷◌, Option, none, some, Result,
  ok, err, panic, ◌>>=◌, ◌>>◌, guard, or_fail, length, take, drop, ltb, leb, ◌==◌, not,
  if◌then◌else◌,
}
use solana_infrastructure.Base.Bytes.{Bytes, bytes_eq}

-- The errors without their texts; the number is the entry's.
pub data PayloadError : Type 0 where
  too_short : ℕ → PayloadError
  no_signatures : PayloadError
  entry_outside : ℕ → PayloadError
  other_instruction : ℕ → PayloadError
  offsets_outside : ℕ → PayloadError
  different_message : ℕ → PayloadError
  unmarshal_error : PayloadError

-- An entry of the offsets' table, with the fields in the order of their bytes.
pub record Offsets : Type 0 where
  pub sig_offset : ℕ
  pub sig_ix : ℕ
  pub pub_key_offset : ℕ
  pub pub_key_ix : ℕ
  pub msg_offset : ℕ
  pub msg_size : ℕ
  pub msg_ix : ℕ

abbrev pub header_size : ℕ
header_size = 2

abbrev pub offsets_struct_len : ℕ
offsets_struct_len = 14

abbrev pub sig_length : ℕ
sig_length = 64

abbrev pub pub_key_length : ℕ
pub_key_length = 32

-- The index that means the instruction itself.
abbrev pub current_instruction : ℕ
current_instruction = 65535

-- `binary.LittleEndian.Uint16`, which panics on fewer than two bytes.
unfoldable pub little_endian_uint16 : Bytes → Result PayloadError ℕ
little_endian_uint16 (a ∷ b ∷ rest) = ok (a + b * 256)
little_endian_uint16 _ = panic

unfoldable pub field : Bytes → ℕ → ℕ → Result PayloadError ℕ
field raw entry offset = little_endian_uint16 (drop (entry + offset) raw)

unfoldable pub read_offsets : Bytes → ℕ → Result PayloadError Offsets
read_offsets raw entry = do
  sig_offset ← field raw entry 0
  pub_key_offset ← field raw entry 4
  msg_offset ← field raw entry 8
  msg_size ← field raw entry 10
  sig_ix ← field raw entry 2
  pub_key_ix ← field raw entry 6
  msg_ix ← field raw entry 12
  ok (record {
    sig_offset = sig_offset;
    sig_ix = sig_ix;
    pub_key_offset = pub_key_offset;
    pub_key_ix = pub_key_ix;
    msg_offset = msg_offset;
    msg_size = msg_size;
    msg_ix = msg_ix;
  })

abbrev pub is_own_instruction : ℕ → ℕ → Bool
is_own_instruction ix_index idx = idx == current_instruction || idx == ix_index

-- Where an entry starts.
abbrev pub entry_at : ℕ → ℕ
entry_at i = header_size + i * offsets_struct_len

-- `data[msgOffset : msgOffset+msgSize]`
abbrev pub message_of : Bytes → Offsets → Bytes
message_of raw o = take o.msg_size (drop o.msg_offset raw)

-- `sharedMessage` is nil before the first entry.
abbrev pub share : ℕ → Option Bytes → Bytes → Result PayloadError Bytes
share i none message = ok message
share i (some shared) message =
    if bytes_eq shared message then ok shared else err (different_message i)

unfoldable pub check_offsets : Bytes → ℕ → ℕ → Option Bytes → Offsets → Result PayloadError Bytes
check_offsets raw ix_index i shared o = do
  guard
      (is_own_instruction ix_index o.sig_ix
        && is_own_instruction ix_index o.pub_key_ix
        && is_own_instruction ix_index o.msg_ix)
      (other_instruction i)
  guard
      (leb (o.sig_offset + sig_length) (length raw)
        && leb (o.pub_key_offset + pub_key_length) (length raw)
        && leb (o.msg_offset + o.msg_size) (length raw))
      (offsets_outside i)
  share i shared (message_of raw o)

-- One round of the loop.
unfoldable pub check_entry : Bytes → ℕ → ℕ → Option Bytes → Result PayloadError Bytes
check_entry raw ix_index i shared = do
  guard (leb (entry_at i + offsets_struct_len) (length raw)) (entry_outside i)
  o ← read_offsets raw (entry_at i)
  check_offsets raw ix_index i shared o

-- The entries from `i` on, `left` of them.
unfoldable pub check_entries : Bytes → ℕ → ℕ → ℕ → Option Bytes → Result PayloadError (Option Bytes)
check_entries raw ix_index zero i shared = ok shared
check_entries raw ix_index (suc left) i shared = check_entry raw ix_index i shared >>= λ message.
    check_entries raw ix_index left (suc i) (some message)

-- `data[0]`
abbrev pub num_sigs : Bytes → Result PayloadError ℕ
num_sigs [] = panic
num_sigs (n ∷ rest) = ok n

abbrev pub bytes_or_empty : Option Bytes → Bytes
bytes_or_empty none = []
bytes_or_empty (some m) = m

-- `unmarshal` is `SolanaPayload.Unmarshal`, which reads Borsh with a library.
module _ {P : Type 0} (unmarshal : Bytes → Option P) where
  unfoldable pub extract_solana_payload_from_ed25519 : Bytes → ℕ → Result PayloadError P
  extract_solana_payload_from_ed25519 raw ix_index = do
    guard (leb header_size (length raw)) (too_short (length raw))
    n ← num_sigs raw
    guard (not (n == 0)) no_signatures
    shared ← check_entries raw ix_index n 0 none
    or_fail (unmarshal (bytes_or_empty shared)) unmarshal_error
