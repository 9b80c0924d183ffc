-- ===== src/Sendtx/Ed25519.antt =====
-- sendtx/tx_sender.go, buildBatchedEd25519Instruction: the data of the instruction that lets the
-- ed25519 program verify all signatures of one message.
pub mod Layout
pub mod Entries
pub mod RoundTrip
use solana_infrastructure.Base.{
  ℕ, zero, suc, ◌+◌, ◌*◌, ◌/◌, ◌%◌, List, [], ◌∷◌, ◌++◌, Result, ok, err, ◌>>=◌, ◌>>◌, guard,
  length, leb, ◌==◌, not,
}
use solana_infrastructure.Base.Bytes.{Bytes, put_uint16}

-- The three errors.
pub data Ed25519Error : Type 0 where
  no_signature_pairs : Ed25519Error
  too_many_signature_pairs : ℕ → Ed25519Error
  empty_payload : Ed25519Error

-- A key of 32 bytes with a signature of 64.
pub record SignaturePair : Type 0 where
  pub pub_key : Bytes
  pub signature : Bytes

abbrev pub max_uint8 : ℕ
max_uint8 = 255

abbrev pub pub_key_length : ℕ
pub_key_length = 32

abbrev pub sig_length : ℕ
sig_length = 64

abbrev pub current_instruction_index : ℕ
current_instruction_index = 65535

abbrev pub ed25519_program_offsets_size : ℕ
ed25519_program_offsets_size = 14

abbrev pub ed25519_program_header_size : ℕ
ed25519_program_header_size = 2

-- Where the keys and signatures start.
abbrev pub base_offset : ℕ → ℕ
base_offset count = ed25519_program_header_size + count * ed25519_program_offsets_size

-- Where the message starts that all entries share.
abbrev pub shared_msg_offset : ℕ → ℕ
shared_msg_offset count = base_offset count + count * (pub_key_length + sig_length)

-- The entry of a pair whose key starts at `key_offset`.
unfoldable pub entry_bytes : ℕ → ℕ → ℕ → Bytes
entry_bytes key_offset msg_offset msg_size =
    put_uint16 (key_offset + pub_key_length)
    ++ put_uint16 current_instruction_index
    ++ put_uint16 key_offset
    ++ put_uint16 current_instruction_index
    ++ put_uint16 msg_offset
    ++ put_uint16 msg_size
    ++ put_uint16 current_instruction_index

-- What the loop appends to `data`, from the pair whose key starts at `key_offset` on.
unfoldable pub entries_bytes : ℕ → ℕ → ℕ → List SignaturePair → Bytes
entries_bytes msg_offset msg_size key_offset [] = []
entries_bytes msg_offset msg_size key_offset (p ∷ pairs) =
    entry_bytes key_offset msg_offset msg_size
    ++ entries_bytes msg_offset msg_size (key_offset + (pub_key_length + sig_length)) pairs

-- What the loop appends to `payload`.
unfoldable pub pairs_bytes : List SignaturePair → Bytes
pairs_bytes [] = []
pairs_bytes (p ∷ pairs) = p.pub_key ++ (p.signature ++ pairs_bytes pairs)

-- The instruction's data. The pairs come in the order in which Go's range visits the map.
unfoldable pub build_batched_ed25519_instruction :
    List SignaturePair → Bytes → Result Ed25519Error Bytes
build_batched_ed25519_instruction pairs payload = do
  let count = length pairs
  guard (not (count == 0)) no_signature_pairs
  guard (leb count max_uint8) (too_many_signature_pairs count)
  guard (not (length payload == 0)) empty_payload
  ok (
      count
      ∷ 0
      ∷ (entries_bytes (shared_msg_offset count) (length payload) (base_offset count) pairs
          ++ (pairs_bytes pairs ++ payload)))
