-- ===== src/Tracker/Config.antt =====
-- tracker/tracker.go: `NewEventTracker` and `setupClientNew`.
pub mod Accepted
use solana_infrastructure.Base.{
  ℕ, Bool, true, false, not, List, [], ◌∷◌, Option, none, some, Result, ok, err, ◌>>=◌, ◌>>◌, guard,
  or_fail, length, ltb, leb, ◌==◌, if◌then◌else◌,
}
use solana_infrastructure.Base.Bytes.{Bytes, bytes_eq}
use solana_infrastructure.Tracker.ChainHead.{LatestGetBlocksState, empty_slots_with_blocks_backoff}

-- A time.Duration in nanoseconds.
pub data Duration : Type 0 where
  nanoseconds : ℕ → Duration
  negative : ℕ → Duration

-- `tracked_programs` lists the keys of the map in the order of the iteration; an interface that is
-- not nil is `true`, and `global_rps_limit` is `none` for a nil RPCMethodLimitsConfig.
pub record EventTrackerConfig : Type 0 where
  pub rpc_endpoint : Bytes
  pub has_client : Bool
  pub global_rps_limit : Option ℕ
  pub tracked_programs : List Bytes
  pub commitment : Bytes
  pub retry_timeout : Duration
  pub start_from_slot : ℕ
  pub block_rounding_threshold : ℕ
  pub avg_slot_time : Duration
  pub chain_head_target_block_count : ℕ
  pub chain_head_slot_offset : ℕ
  pub has_event_subscriber : Bool
  pub disable_rate_limiting : Bool

pub data ConfigError : Type 0 where
  nil_config : ConfigError
  nil_storage : ConfigError
  no_subscriber : ConfigError
  no_programs : ConfigError
  invalid_program : Bytes → ConfigError
  no_authority : ConfigError
  no_endpoint : ConfigError
  negative_slot_time : ConfigError
  small_target : ConfigError
  target_beyond_offset : ConfigError

pub data Client : Type 0 where
  given : Client
  plain : Bytes → Client
  rate_limited : Bytes → ℕ → Client

pub record EventTracker : Type 0 where
  pub client : Client
  pub event_authorities : List (Bytes × Bytes)
  pub confirmed : Bool
  pub poll_time : Duration
  pub start_from_slot : ℕ
  pub chain_head_slot : ℕ
  pub chain_head_slot_offset : ℕ
  pub chain_head_target_block_count : ℕ
  pub avg_slot_time : ℕ
  pub block_rounding_threshold : ℕ
  pub latest_get_blocks_state : LatestGetBlocksState

abbrev or_default : ℕ → ℕ → ℕ
or_default d n = if n == 0 then d else n

abbrev default_poll_time : Duration → Duration
default_poll_time (nanoseconds n) = nanoseconds (or_default 500000000 n)
default_poll_time (negative n) = negative n

-- A zero is the default of 166 milliseconds, and a negative duration is an error.
abbrev slot_time : Duration → Result ConfigError ℕ
slot_time (nanoseconds n) = ok (or_default 166000000 n)
slot_time (negative n) = err negative_slot_time

abbrev confirmed_text : Bytes
confirmed_text = b'c' ∷ b'o' ∷ b'n' ∷ b'f' ∷ b'i' ∷ b'r' ∷ b'm' ∷ b'e' ∷ b'd' ∷ []

abbrev limit_or_default : Option ℕ → ℕ
limit_or_default none = 7
limit_or_default (some n) = n

unfoldable pub setup_client_new : EventTrackerConfig → Result ConfigError Client
setup_client_new c =
    if c.has_client
    then ok given
    else if length c.rpc_endpoint == 0
    then err no_endpoint
    else if c.disable_rate_limiting
    then ok (plain c.rpc_endpoint)
    else ok (rate_limited c.rpc_endpoint (limit_or_default c.global_rps_limit))

-- `public_key` is `PublicKeyFromBase58`, and `derive` is `deriveEventAuthority`.
module _ (public_key : Bytes → Option Bytes) (derive : Bytes → Option Bytes) where
  unfoldable pub authorities_of : List Bytes → Result ConfigError (List (Bytes × Bytes))
  authorities_of [] = ok []
  authorities_of (text ∷ rest) = or_fail (public_key text) (invalid_program text) >>= λ program.
      or_fail (derive program) no_authority >>= λ authority.
      authorities_of rest >>= λ others. ok ((program, authority) ∷ others)

  unfoldable pub new_event_tracker :
      Option EventTrackerConfig → Bool → Result ConfigError EventTracker
  new_event_tracker config has_storage = do
    c ← or_fail config nil_config
    guard has_storage nil_storage
    guard c.has_event_subscriber no_subscriber
    guard (not (length c.tracked_programs == 0)) no_programs
    authorities ← authorities_of c.tracked_programs
    client ← setup_client_new c
    avg ← slot_time c.avg_slot_time
    guard (ltb empty_slots_with_blocks_backoff (or_default 30 c.chain_head_target_block_count))
        small_target
    guard
        (leb (or_default 30 c.chain_head_target_block_count)
          (or_default 80 c.chain_head_slot_offset))
        target_beyond_offset
    ok (record {
      client = client;
      event_authorities = authorities;
      confirmed = bytes_eq c.commitment confirmed_text;
      poll_time = default_poll_time c.retry_timeout;
      start_from_slot = c.start_from_slot;
      chain_head_slot = c.start_from_slot;
      chain_head_slot_offset = or_default 80 c.chain_head_slot_offset;
      chain_head_target_block_count = or_default 30 c.chain_head_target_block_count;
      avg_slot_time = avg;
      block_rounding_threshold = or_default 10 c.block_rounding_threshold;
      latest_get_blocks_state = record {
        chain_head_slot = c.start_from_slot;
        queried_blocks_with_slots_len = 0;
      };
    })
