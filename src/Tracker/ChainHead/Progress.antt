-- ===== src/Tracker/ChainHead/Progress.antt =====
-- Where a refresh and a forced advance leave the chain head.
use solana_infrastructure.Base.{
  ℕ, suc, ◌+◌, ◌%◌, ◌<◌, ◌≤◌, ◌≡◌, refl, List, [], ◌∷◌, Option, none, some, Result, ok, err, panic,
  length, arith, Bool-cases, inl, inr, ◌==◌, ltb, if◌then◌else◌, ◌⊎◌,
}
use solana_infrastructure.Base.Bytes.{u64_mod}
use solana_infrastructure.Store.Data.{BlockPoint}
use solana_infrastructure.Tracker.Retry.{RetryError}
use solana_infrastructure.Tracker.Slots.{get_slots_to_query_blocks}
use solana_infrastructure.Tracker.Slots.Windows.{Rising, slots_loop-Rising}
use solana_infrastructure.Tracker.Storage.{StorageHandler}
use solana_infrastructure.Tracker.ChainHead.{
  Block, Node, HeadConfig, HeadError, Head, TryAgain, fetch_block, store_slot, store_slots,
  store_latest, unstick_chain_head, refresh_with, refresh_chain_head, last_or, advance_if_past,
  advanced, continue, same_state, record_state, refresh_answer, queried_slots, stored_slots,
  empty_slots_with_blocks_backoff,
}

module _ {S E : Type 0} (storage : StorageHandler S E) (node : Node) where
  store_slot-le :
      (slot : ℕ) (h : Head S) (f : Option Block × Option (RetryError TryAgain))
      → h.chain_head_slot ≤ slot
      → (h.chain_head_slot ≤ (store_slot storage node slot h f).1.chain_head_slot)
        × ((store_slot storage node slot h f).1.chain_head_slot ≤ slot)
  unfolding store_slot
  store_slot-le slot h (block, some e) le = (omega arith, le)
  store_slot-le slot h (none, none) le = (omega arith, le)
  store_slot-le slot h (some block, none) le = ground arith

  continue-le :
      (m : ℕ) (x : Result HeadError BlockPoint × Head S)
      (f : BlockPoint → Head S → Result HeadError BlockPoint × Head S)
      → m ≤ x.1.chain_head_slot
      → ((a : BlockPoint) → m ≤ (f a x.1).1.chain_head_slot)
      → m ≤ (continue storage node x f).1.chain_head_slot
  unfolding continue
  continue-le m (ok a, h) f le next = next a
  continue-le m (err e, h) f le next = le
  continue-le m (panic, h) f le next = le

  store_slots-le :
      (m low : ℕ) (l : List ℕ) (p : BlockPoint) (h : Head S)
      → m ≤ h.chain_head_slot
      → h.chain_head_slot ≤ low
      → Rising low l
      → m ≤ (store_slots storage node l p h).1.chain_head_slot
  unfolding store_slots
  store_slots-le m low [] p h from le r = from
  store_slots-le m low (slot ∷ rest) p h from le (lo, r) =
      elim (Bool-cases (slot == h.chain_head_slot)) [
        | inl at_head ↦
            rw (at_head, if◌then◌else◌) (store_slots-le m (suc slot) rest p h from (omega arith) r)
        | inr other ↦
            let (up, within) = store_slot-le slot h (fetch_block node slot) (omega arith) in
            rw (other, if◌then◌else◌)
              (continue-le m (store_slot storage node slot h (fetch_block node slot))
                (store_slots storage node rest) (omega (arith, up))
                (λ a.
                  store_slots-le m (suc slot) rest a _ (omega (arith, up)) (omega (arith, within))
                    r))
      ]

  store_latest_same :
      (p : BlockPoint) (h : Head S)
      → (store_latest storage node p h).1.chain_head_slot ≡ h.chain_head_slot
  unfolding store_latest
  store_latest_same p h = ground arith

  stored_slots-after :
      (m wait : ℕ) (x : Result HeadError BlockPoint × Head S)
      → m ≤ x.1.chain_head_slot
      → m ≤ (stored_slots storage node wait x).after.chain_head_slot
  unfolding stored_slots
  stored_slots-after m wait (ok p, h) le = omega (arith, store_latest_same p h)
  stored_slots-after m wait (err e, h) le = le
  stored_slots-after m wait (panic, h) le = le

  last_or-Rising :
      (low slot : ℕ) (l : List ℕ) → low ≤ slot → Rising (suc slot) l → low ≤ last_or slot l
  last_or-Rising low slot [] le r = le
  last_or-Rising low slot (n ∷ l) le (lt, r) = last_or-Rising low n l (omega arith) r

  advance_if_past-bounds :
      (slot : ℕ) (o : Option ℕ) (h : Head S)
      → h.chain_head_slot ≤ slot
      → let after = (advance_if_past storage node slot o h).1.chain_head_slot in
        (h.chain_head_slot ≤ after)
        × ((after ≡ h.chain_head_slot) ⊎ ((current : ℕ) × (o ≡ some current) × (after ≤ current)))
  unfolding advance_if_past
  advance_if_past-bounds slot none h le = (omega arith, inl refl)
  advance_if_past-bounds slot (some current) h le = elim (Bool-cases (ltb current slot)) [
    | inl past ↦ rw (past, if◌then◌else◌) (omega arith, inl refl)
    | inr reached ↦ rw (reached, if◌then◌else◌) (le, inr (current, refl, ground arith))
  ]

  -- A forced advance never moves back, if the settings are such as `NewEventTracker` accepts and the
  -- slots rise from the chain head on.
  pub unstick_chain_head-le :
      (c : HeadConfig) (l : List ℕ) (h : Head S)
      → empty_slots_with_blocks_backoff < c.target_block_count
      → h.chain_head_slot + c.target_block_count < u64_mod
      → Rising h.chain_head_slot l
      → h.chain_head_slot ≤ (unstick_chain_head storage node c l h).1.chain_head_slot
  unfolding unstick_chain_head
  unstick_chain_head-le c [] h target fits r =
      (advance_if_past-bounds (advanced storage node c h.chain_head_slot) node.get_slot h
        (omega arith)).0
  unstick_chain_head-le c (a ∷ []) h target fits r =
      (advance_if_past-bounds (advanced storage node c h.chain_head_slot) node.get_slot h
        (omega arith)).0
  unstick_chain_head-le c (a ∷ n ∷ l) h target fits (lo, (lt, r)) =
      last_or-Rising h.chain_head_slot n l (omega arith) r

  -- With the same settings, a forced advance with at most one slot in the window does not move, or
  -- ends at most at the node's current slot.
  pub unstick_chain_head_bounds :
      (c : HeadConfig) (l : List ℕ) (h : Head S)
      → empty_slots_with_blocks_backoff < c.target_block_count
      → h.chain_head_slot + c.target_block_count < u64_mod
      → length l ≤ 1
      → let after = (unstick_chain_head storage node c l h).1.chain_head_slot in
        (after ≡ h.chain_head_slot)
        ⊎ ((current : ℕ) × (node.get_slot ≡ some current) × (after ≤ current))
  unfolding unstick_chain_head
  unstick_chain_head_bounds c [] h target fits few =
      (advance_if_past-bounds (advanced storage node c h.chain_head_slot) node.get_slot h
        (omega arith)).1
  unstick_chain_head_bounds c (a ∷ []) h target fits few =
      (advance_if_past-bounds (advanced storage node c h.chain_head_slot) node.get_slot h
        (omega arith)).1
  unstick_chain_head_bounds c (a ∷ n ∷ l) h target fits few = absurd (omega arith)

  queried_slots-after :
      (m wait : ℕ) (x : Result ℕ (List ℕ)) (h : Head S)
      → m ≤ h.chain_head_slot
      → ((l : List ℕ) → x ≡ ok l → Rising h.chain_head_slot l)
      → m ≤ (queried_slots storage node wait x h).after.chain_head_slot
  unfolding queried_slots
  queried_slots-after m wait (ok l) h le r =
      stored_slots-after m wait _
        (store_slots-le m h.chain_head_slot l _ h le (omega arith) (r l refl))
  queried_slots-after m wait (err e) h le r = le
  queried_slots-after m wait panic h le r = le

  queried-Rising :
      (low threshold : ℕ) (slots l : List ℕ)
      → Rising low slots
      → get_slots_to_query_blocks slots threshold ≡ ok l
      → Rising low l
  unfolding get_slots_to_query_blocks
  queried-Rising low threshold [] l r e = ground arith
  queried-Rising low threshold (s ∷ rest) l r e =
      ground (arith, slots_loop-Rising threshold low (s ∷ rest) r)

  refresh_with-le :
      (c : HeadConfig) (h : Head S) (l : List ℕ)
      → empty_slots_with_blocks_backoff < c.target_block_count
      → h.chain_head_slot + c.target_block_count < u64_mod
      → Rising h.chain_head_slot l
      → h.chain_head_slot ≤ (refresh_with storage node c l h).after.chain_head_slot
  unfolding refresh_with
  refresh_with-le c h l target fits r =
      elim (Bool-cases (same_state (record_state h.chain_head_slot (length l)) h.latest_state)) [
        | inl same ↦ rw (same, if◌then◌else◌) (unstick_chain_head-le c l h target fits r)
        | inr moved ↦
            rw (moved, if◌then◌else◌)
              (elim (Bool-cases (length l == 0)) [
                | inl empty ↦ rw (empty, if◌then◌else◌) (omega arith)
                | inr some_slots ↦
                    rw (some_slots, if◌then◌else◌)
                      (queried_slots-after h.chain_head_slot _ _ _ (omega arith) (λ q e.
                        queried-Rising h.chain_head_slot c.block_rounding_threshold l q r e))
              ])
      ]

  refresh_answer-le :
      (c : HeadConfig) (h : Head S) (o : Option (List ℕ))
      → empty_slots_with_blocks_backoff < c.target_block_count
      → h.chain_head_slot + c.target_block_count < u64_mod
      → ((l : List ℕ) → o ≡ some l → Rising h.chain_head_slot l)
      → h.chain_head_slot ≤ (refresh_answer storage node c o h).after.chain_head_slot
  unfolding refresh_answer
  refresh_answer-le c h none target fits lists = omega arith
  refresh_answer-le c h (some l) target fits lists =
      refresh_with-le c h l target fits (lists l refl)

  -- If the node lists the slots of the window that it is asked for in rising order, none below the
  -- window's start, and the settings are such as `NewEventTracker` accepts, then a refresh never
  -- moves the chain head back, whether it stores blocks, fails on the way or is forced to advance.
  pub refresh_chain_head-le :
      (c : HeadConfig) (h : Head S)
      → empty_slots_with_blocks_backoff < c.target_block_count
      → h.chain_head_slot + c.target_block_count < u64_mod
      → ((l : List ℕ) (end : ℕ)
          → node.get_blocks h.chain_head_slot end ≡ some l
          → Rising h.chain_head_slot l)
      → h.chain_head_slot ≤ (refresh_chain_head storage node c h).after.chain_head_slot
  unfolding refresh_chain_head
  refresh_chain_head-le c h target fits lists =
      refresh_answer-le c h
        (node.get_blocks h.chain_head_slot ((h.chain_head_slot + c.slot_offset) % u64_mod)) target
        fits (λ l e. lists l ((h.chain_head_slot + c.slot_offset) % u64_mod) e)
