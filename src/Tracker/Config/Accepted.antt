-- ===== src/Tracker/Config/Accepted.antt =====
-- The settings of a tracker that was accepted.
use solana_infrastructure.Base.{
  ℕ, ◌<◌, ◌≤◌, ◌≡◌, refl, Bool, true, false, not, Option, none, some, Result, ok, guard, length,
  ltb, leb, ◌==◌, bind-ok, arith, subst, ltb→lt, leb→le,
}
use solana_infrastructure.Base.Bytes.{Bytes}
use solana_infrastructure.Tracker.ChainHead.{empty_slots_with_blocks_backoff}
use solana_infrastructure.Tracker.Config.{
  EventTrackerConfig, EventTracker, ConfigError, nil_storage, no_subscriber, Duration, nanoseconds,
  negative, or_default, small_target, target_beyond_offset, slot_time, setup_client_new,
  authorities_of, new_event_tracker,
}

-- A tracker's settings let a forced advance go forward, and the target can be met in a window.
pub record IsReady (t : EventTracker) : Type 0 where
  pub above_backoff : empty_slots_with_blocks_backoff < t.chain_head_target_block_count
  pub within_window : t.chain_head_target_block_count ≤ t.chain_head_slot_offset
  pub rounds : 0 < t.block_rounding_threshold
  pub waits : 0 < t.avg_slot_time

ok_value : (x y : EventTracker) → Path (Result ConfigError EventTracker) (ok x) (ok y) → x ≡ y
ok_value x y e = cc

guard_passed : (x : Bool) (e : ConfigError) (u : Unit {0}) → guard x e ≡ ok u → x ≡ true
guard_passed true e u h = refl
guard_passed false e u h = absurd cc

or_default-pos : (d n : ℕ) → 0 < d → 0 < or_default d n
or_default-pos d n pos = ground arith

slot_time-pos : (d : Duration) (n : ℕ) → slot_time d ≡ ok n → 0 < n
slot_time-pos (nanoseconds m) n e =
    let same : or_default 166000000 m ≡ n = ground (arith, e) in
    subst (λ k. 0 < k) same (or_default-pos 166000000 m (omega arith))
slot_time-pos (negative m) n e = absurd cc

module _ (public_key : Bytes → Option Bytes) (derive : Bytes → Option Bytes) where
  -- If `NewEventTracker` returns a tracker, its target of blocks is above the backoff of a forced
  -- advance and at most the width of the window, and its rounding threshold and slot time are
  -- positive.
  pub new_event_tracker-IsReady :
      (config : Option EventTrackerConfig) (has_storage : Bool) (t : EventTracker)
      → new_event_tracker public_key derive config has_storage ≡ ok t
      → IsReady t
  unfolding new_event_tracker
  new_event_tracker-IsReady none has_storage t e = absurd cc
  new_event_tracker-IsReady (some c) has_storage t e =
      let (u1, g1, e1) = bind-ok (guard has_storage nil_storage) _ t e in
      let (u2, g2, e2) = bind-ok (guard c.has_event_subscriber no_subscriber) _ t e1 in
      let (u3, g3, e3) = bind-ok (guard (not (length c.tracked_programs == 0)) _) _ t e2 in
      let (a, g4, e4) = bind-ok (authorities_of public_key derive c.tracked_programs) _ t e3 in
      let (client, g5, e5) = bind-ok (setup_client_new c) _ t e4 in
      let (avg, g6, e6) = bind-ok (slot_time c.avg_slot_time) _ t e5 in
      let (u7, g7, e7) =
        bind-ok
          (guard
            (ltb empty_slots_with_blocks_backoff (or_default 30 c.chain_head_target_block_count))
            small_target)
          _ t e6 in
      let (u8, g8, e8) =
        bind-ok
          (guard
            (leb (or_default 30 c.chain_head_target_block_count)
              (or_default 80 c.chain_head_slot_offset))
            target_beyond_offset)
          _ t e7 in
      subst IsReady (ok_value _ t e8) (record {
        above_backoff = ltb→lt _ _ (guard_passed _ _ u7 g7);
        within_window = leb→le _ _ (guard_passed _ _ u8 g8);
        rounds = or_default-pos 10 c.block_rounding_threshold (omega arith);
        waits = slot_time-pos c.avg_slot_time avg g6;
      })
