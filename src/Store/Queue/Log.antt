-- ===== src/Store/Queue/Log.antt =====
-- What the store promises about transactions: a first-in first-out queue and two markers, and when
-- a database represents one.
use solana_infrastructure.Base.{
  ℕ, suc, ◌+◌, ◌<◌, ◌≡◌, true, List, [], ◌∷◌, ◌++◌, some, Result, ok, err, length, if◌then◌else◌,
}
use solana_infrastructure.Base.Bytes.{Bytes, u64_mod, bytes_eq, encode_uint64}
use solana_infrastructure.Store.Bolt.{Bolt}
use solana_infrastructure.Store.Data.{
  StoreError, TxPoint, IsTxPoint, head_key, tail_key, last_processed_key, last_queried_key,
  encode_tx_point,
}
use solana_infrastructure.Store.Queue.{queue_bucket, decoded_or, tx_point_or_zero, non_empty}

pub record TxLog : Type 0 where
  pub queue : List TxPoint
  pub last_processed : TxPoint
  pub last_queried : TxPoint

-- The calls that change the log.
pub data Call : Type 0 where
  pushes : List TxPoint → Call
  finalizes : Bytes → Call
  sets_last_processed : TxPoint → Call
  sets_last_queried : TxPoint → Call

unfoldable pub pop_front : Bytes → TxLog → List TxPoint → TxLog
pop_front signature s [] = s
pop_front signature s (p ∷ q) =
    if bytes_eq p.tx_signature signature then record s { queue = q; last_processed = p } else s

-- The specification of each call. A refused `finalizes` changes nothing.
unfoldable pub spec : Call → TxLog → TxLog
unfolding pop_front non_empty
spec (pushes ps) s = record s { queue = s.queue ++ non_empty ps }
spec (finalizes signature) s = pop_front signature s s.queue
spec (sets_last_processed p) s = record s { last_processed = p }
spec (sets_last_queried p) s = record s { last_queried = p }

-- What the caller is told where the commit succeeds.
unfoldable pub finalize_outcome : Bytes → List TxPoint → Result StoreError (Unit {0})
finalize_outcome signature [] = err StoreError.queue_empty
finalize_outcome signature (p ∷ q) =
    if bytes_eq p.tx_signature signature
    then ok tt
    else err (StoreError.not_at_front signature p.tx_signature)

abbrev pub outcome : Call → TxLog → Result StoreError (Unit {0})
outcome (pushes ps) s = ok tt
outcome (finalizes signature) s = finalize_outcome signature s.queue
outcome (sets_last_processed p) s = ok tt
outcome (sets_last_queried p) s = ok tt

-- The entries stored from index `i` on.
abbrev pub Entries : (b : Bolt) → b.Tx → ℕ → List TxPoint → Type 0
Entries b t i [] = Unit {0}
Entries b t i (p ∷ ps) =
    (b.get queue_bucket (encode_uint64 i) t ≡ some (encode_tx_point p))
    × IsTxPoint p
    × Entries b t (suc i) ps

-- `tail` counts the entries pushed so far.
pub record Represents (b : Bolt) (t : b.Tx) (s : TxLog) (tail : ℕ) : Type 0 where
  pub head : ℕ
  pub bucket : b.has_bucket queue_bucket t ≡ true
  pub head_stored : decoded_or 0 (b.get queue_bucket head_key t) ≡ ok head
  pub tail_stored : decoded_or 0 (b.get queue_bucket tail_key t) ≡ ok tail
  pub spans : tail ≡ head + length s.queue
  pub tail_fits : tail < u64_mod
  pub entries : Entries b t head s.queue
  pub processed_stored :
      tx_point_or_zero (b.get queue_bucket last_processed_key t) ≡ ok s.last_processed
  pub queried_stored : tx_point_or_zero (b.get queue_bucket last_queried_key t) ≡ ok s.last_queried
