-- ===== src/Tracker/Cpi.antt =====
-- tracker/cpi_events.go: the events in a transaction's inner instructions, and the payload of the
-- batch that was executed.
pub mod Emitted
pub mod Adjacent
use solana_infrastructure.Base.{
  ℕ, zero, suc, ◌+◌, ◌%◌, Bool, true, false, ◌&&◌, List, [], ◌∷◌, ◌++◌, Option, none, some, Result,
  ok, err, panic, length, get_elem?, take, drop, leb, ltb, ◌==◌, if◌then◌else◌,
}
use solana_infrastructure.Base.Bytes.{Bytes, bytes_eq}
use solana_infrastructure.Tracker.Payload.{PayloadError, extract_solana_payload_from_ed25519}

-- A compiled instruction: indexes into the account keys, and the data.
pub record Instruction : Type 0 where
  pub program_id_index : ℕ
  pub accounts : List ℕ
  pub payload : Bytes

-- The inner instructions of the top-level instruction `index`.
pub record InnerInstruction : Type 0 where
  pub index : ℕ
  pub instructions : List Instruction

pub record EmittedEvent : Type 0 where
  pub program_id : Bytes
  pub event_data : Bytes
  pub top_level_index : ℕ

-- 0x1d9acb512ea545e4, little-endian.
abbrev pub event_ix_tag_le : Bytes
event_ix_tag_le = 228 ∷ 69 ∷ 165 ∷ 46 ∷ 81 ∷ 203 ∷ 154 ∷ 29 ∷ []

-- The message's keys, the writable loaded ones and the read-only ones.
unfoldable pub transaction_account_keys : List Bytes → List Bytes → List Bytes → List Bytes
transaction_account_keys static_keys writable read_only = (static_keys ++ writable) ++ read_only

abbrev pub has_tag : Bytes → Bool
has_tag payload =
    ltb (length event_ix_tag_le) (length payload)
    && bytes_eq (take (length event_ix_tag_le) payload) event_ix_tag_le

module _ (keys : List Bytes) (event_authority_of : Bytes → Option Bytes) where
  -- The first account is there, and its key is the authority.
  abbrev key_is : Option Bytes → Bytes → Bool
  key_is none authority = false
  key_is (some key) authority = bytes_eq key authority

  abbrev signed_by : List ℕ → Bytes → Bool
  signed_by [] authority = false
  signed_by (account ∷ rest) authority = key_is (get_elem? keys account) authority

  abbrev event_of : ℕ → Instruction → Bytes → Option Bytes → List EmittedEvent → List EmittedEvent
  event_of index ix program_id none later = later
  event_of index ix program_id (some authority) later =
      if has_tag ix.payload
      then if signed_by ix.accounts authority
        then record {
          program_id = program_id;
          event_data = drop (length event_ix_tag_le) ix.payload;
          top_level_index = index;
        }
          ∷ later
        else later
      else later

  abbrev of_program : ℕ → Instruction → Option Bytes → List EmittedEvent → List EmittedEvent
  of_program index ix none later = later
  of_program index ix (some program_id) later =
      event_of index ix program_id (event_authority_of program_id) later

  -- The inner loop; the events of the rest are `later`.
  unfoldable pub events_of_instructions :
      ℕ → List Instruction → List EmittedEvent → List EmittedEvent
  events_of_instructions index [] later = later
  events_of_instructions index (ix ∷ rest) later =
      of_program index ix (get_elem? keys ix.program_id_index)
        (events_of_instructions index rest later)

  unfoldable pub collect_cpi_events : List InnerInstruction → List EmittedEvent
  collect_cpi_events [] = []
  collect_cpi_events (group ∷ rest) =
      events_of_instructions group.index group.instructions (collect_cpi_events rest)

-- An index may be negative, `none`.
abbrev pub index_before : ℕ → Option ℕ
index_before zero = none
index_before (suc i) = some i

abbrev key_equals : Option Bytes → Bytes → Bool
key_equals none program_id = false
key_equals (some key) program_id = bytes_eq key program_id

abbrev runs_program : List Bytes → Bytes → Option Instruction → Bool
runs_program keys program_id none = false
runs_program keys program_id (some ix) = key_equals (get_elem? keys ix.program_id_index) program_id

unfoldable pub instruction_program_equals : List Instruction → List Bytes → Option ℕ → Bytes → Bool
instruction_program_equals instructions keys none program_id = false
instruction_program_equals instructions keys (some i) program_id =
    runs_program keys program_id (get_elem? instructions i)

pub data FindError : Type 0 where
  index_out_of_range : ℕ → FindError
  extract_error : ℕ → PayloadError → FindError
  different_batch : ℕ → FindError
  no_adjacent : FindError

-- A uint16 of an index.
abbrev pub uint16 : ℕ → ℕ
uint16 i = i % 65536

abbrev payload_at : List Instruction → ℕ → Bytes
payload_at [] i = []
payload_at (ix ∷ rest) zero = ix.payload
payload_at (ix ∷ rest) (suc i) = payload_at rest i

-- `P` is the payload's type, with the Borsh reader and the batch's id; the last parameter is
-- `sendtx.Ed25519ProgramID`.
module _ {P : Type 0} (unmarshal : Bytes → Option P) (batch_id : P → ℕ)
    (ed25519_program : Bytes) where
  abbrev same_batch : ℕ → ℕ → Result PayloadError P → Result FindError P
  same_batch adjacent event_batch (ok p) =
      if batch_id p == event_batch then ok p else err (different_batch adjacent)
  same_batch adjacent event_batch (err e) = err (extract_error adjacent e)
  same_batch adjacent event_batch panic = panic

  -- The payload of the instruction at `adjacent`.
  unfoldable pub payload_of_adjacent : List Instruction → ℕ → ℕ → Result FindError P
  payload_of_adjacent instructions event_batch adjacent = same_batch adjacent event_batch (
      extract_solana_payload_from_ed25519 unmarshal (payload_at instructions adjacent)
        (uint16 adjacent))

  abbrev at_index : List Instruction → ℕ → Option ℕ → Result FindError P
  at_index instructions event_batch none = panic
  at_index instructions event_batch (some i) = payload_of_adjacent instructions event_batch i

  -- The loop over the two indexes.
  unfoldable pub first_adjacent :
      List Instruction → List Bytes → ℕ → List (Option ℕ) → Result FindError P
  first_adjacent instructions keys event_batch [] = err no_adjacent
  first_adjacent instructions keys event_batch (adjacent ∷ rest) =
      let later = first_adjacent instructions keys event_batch rest in
      if instruction_program_equals instructions keys adjacent ed25519_program
      then at_index instructions event_batch adjacent
      else later

  unfoldable pub find_batch_payload_at_instruction :
      List Instruction → List Bytes → ℕ → ℕ → Result FindError P
  find_batch_payload_at_instruction instructions keys top_level_index event_batch =
      if leb (length instructions) top_level_index
      then err (index_out_of_range top_level_index)
      else first_adjacent instructions keys event_batch
          (index_before top_level_index ∷ some (top_level_index + 1) ∷ [])
