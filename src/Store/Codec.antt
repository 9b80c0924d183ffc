-- ===== src/Store/Codec.antt =====
-- encoding/json over the store's records, and the base58 texts of solana-go, as an interface.
use solana_infrastructure.Base.{ℕ, ◌≡◌, Option, some, length}
use solana_infrastructure.Base.Bytes.{Bytes}
use solana_infrastructure.Store.Data.{BlockPoint, signature_length}

-- `D` is `map[string]interface{}`.
pub record EventRecord (D : Type 0) : Type 0 where
  pub id : ℕ
  pub slot : ℕ
  pub block_number : ℕ
  pub tx_signature : Bytes
  pub program : Bytes
  pub event_type : Bytes
  pub inner_action_hash : Bytes
  pub event_map : D

-- `EventData` is the pointer to a generated event; `data_map` marshals what it points to and reads
-- the text back into a map. `none` is an error.
pub record Codec : Type 1 where
  pub EventData : Type 0
  pub DataMap : Type 0
  pub data_map : EventData → Option DataMap
  pub marshal_record : EventRecord DataMap → Option Bytes
  pub unmarshal_record : Bytes → Option (EventRecord DataMap)
  pub marshal_block_point : BlockPoint → Option Bytes
  pub unmarshal_block_point : Bytes → Option BlockPoint
  pub signature_text : Bytes → Bytes
  pub signature_from_base58 : Bytes → Option Bytes
  pub program_text : Bytes → Bytes

-- What is written can be read back, and a BlockPoint's text is short and not empty.
pub record CodecLaws (c : Codec) : Type 0 where
  pub record_roundtrip :
      (r : EventRecord c.DataMap) (v : Bytes)
      → c.marshal_record r ≡ some v
      → c.unmarshal_record v ≡ some r
  pub block_point_roundtrip :
      (p : BlockPoint) (v : Bytes)
      → c.marshal_block_point p ≡ some v
      → c.unmarshal_block_point v ≡ some p
  pub signature_roundtrip :
      (s : Bytes)
      → length s ≡ signature_length
      → c.signature_from_base58 (c.signature_text s) ≡ some s
