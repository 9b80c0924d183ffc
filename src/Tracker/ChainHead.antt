-- ===== src/Tracker/ChainHead.antt =====
-- tracker/tracker.go: the loop that follows the chain head.
pub mod Progress
use solana_infrastructure.Base.{
  ℕ, zero, suc, ◌+◌, ◌-◌, ◌%◌, Bool, true, false, ◌&&◌, List, [], ◌∷◌, Option, none, some, Result,
  ok, err, panic, length, ltb, replicate, ◌==◌, if◌then◌else◌,
}
use solana_infrastructure.Base.Bytes.{Bytes, u64_mod}
use solana_infrastructure.Store.Data.{StoreError, BlockPoint}
use solana_infrastructure.Tracker.Retry.{RetryError, execute_with_retry}
use solana_infrastructure.Tracker.Slots.{get_slots_to_query_blocks, chain_head_catch_up_wait}
use solana_infrastructure.Tracker.Storage.{StorageHandler}

pub record LatestGetBlocksState : Type 0 where
  pub chain_head_slot : ℕ
  pub queried_blocks_with_slots_len : ℕ

-- rpc.GetBlockResult, as far as it is read; `BlockHeight` may be nil.
pub record Block : Type 0 where
  pub blockhash : Bytes
  pub block_height : Option ℕ

-- The answers of the node during one refresh; `get_block slot n` is the answer to the n-th request
-- for the block at `slot`, with `none` for a nil result, and `done slot n` says whether the context
-- ends in the wait after that request.
pub record Node : Type 0 where
  pub get_blocks : ℕ → ℕ → Option (List ℕ)
  pub get_block : ℕ → ℕ → Option (Option Block)
  pub get_slot : Option ℕ
  pub done : ℕ → ℕ → Bool

-- The tracker's settings that the loop reads, and its product of floats.
pub record HeadConfig : Type 0 where
  pub slot_offset : ℕ
  pub target_block_count : ℕ
  pub avg_slot_time : ℕ
  pub block_rounding_threshold : ℕ
  pub float_mul : ℕ → ℕ → ℕ

pub data HeadError : Type 0 where
  no_block : ℕ → HeadError
  nil_block : ℕ → HeadError
  no_slot : HeadError
  storage_error : StoreError → HeadError

-- The fields of `EventTracker` that the loop changes, and what is persisted.
pub record Head (S : Type 0) : Type 0 where
  pub chain_head_slot : ℕ
  pub latest_state : LatestGetBlocksState
  pub stored : S

abbrev pub empty_slots_with_blocks_backoff : ℕ
empty_slots_with_blocks_backoff = 3

-- The handler that the retries call turns every error into the one that is tried again.
pub data TryAgain : Type 0 where
  try_again : TryAgain

abbrev answered : Option (Option Block) → Option Block × Option TryAgain
answered none = (none, some try_again)
answered (some block) = (block, none)

-- `ExecuteWithRetry` around `GetBlockWithOpts`, ten times at most.
unfoldable pub fetch_block : Node → ℕ → Option Block × Option (RetryError TryAgain)
fetch_block node slot =
    execute_with_retry (λ e. true) (λ n. answered (node.get_block slot n)) (node.done slot) 10 none

abbrev block_point : ℕ → Block → BlockPoint
block_point slot block = record {
  block_slot = slot;
  block_hash = block.blockhash;
  block_number = height block.block_height;
}
  where
    height : Option ℕ → ℕ
    height none = 0
    height (some n) = n

-- The wait, the error and the state after `refreshChainHead`.
pub record Refreshed (S : Type 0) : Type 0 where
  pub idle_wait : ℕ
  pub outcome : Result HeadError (Unit {0})
  pub after : Head S

abbrev zero_block_point : BlockPoint
zero_block_point = record { block_slot = 0; block_hash = replicate 32 0; block_number = 0 }

-- The last slot of a window.
abbrev last_or : ℕ → List ℕ → ℕ
last_or slot [] = slot
last_or slot (following ∷ rest) = last_or following rest

abbrev record_state : ℕ → ℕ → LatestGetBlocksState
record_state slot n = record { chain_head_slot = slot; queried_blocks_with_slots_len = n }

abbrev same_state : LatestGetBlocksState → LatestGetBlocksState → Bool
same_state a b =
    a.chain_head_slot == b.chain_head_slot
    && a.queried_blocks_with_slots_len == b.queried_blocks_with_slots_len

abbrev with_state : {S : Type 0} → Head S → LatestGetBlocksState → Head S
with_state h state = record h { latest_state = state }

module _ {S E : Type 0} (storage : StorageHandler S E) (node : Node) where
  -- `StoreBlock` and the move of the head.
  keep_block :
      BlockPoint → Head S → Result StoreError (Unit {0}) × S → Result HeadError (Unit {0}) × Head S
  keep_block p h (ok u, s) = (ok tt, record h { chain_head_slot = p.block_slot; stored = s })
  keep_block p h (err e, s) = (err (storage_error e), record h { stored = s })
  keep_block p h (panic, s) = (panic, record h { stored = s })

  -- One round of the loop of `refreshChainHead`, for a slot other than the head.
  unfoldable pub store_slot :
      ℕ
      → Head S
      → Option Block × Option (RetryError TryAgain)
      → Result HeadError BlockPoint × Head S
  unfolding keep_block
  store_slot slot h (block, some e) = (err (no_block slot), h)
  store_slot slot h (none, none) = (err (nil_block slot), h)
  store_slot slot h (some block, none) =
      let p = block_point slot block in
      let (r, h') = keep_block p h (storage.store_block p h.stored) in
      (elim r [ ok u ↦ ok p | err e ↦ err e | panic ↦ panic ], h')

  continue :
      {A B : Type 0}
      → Result HeadError A × Head S
      → (A → Head S → Result HeadError B × Head S)
      → Result HeadError B × Head S
  continue (ok a, h) f = f a h
  continue (err e, h) f = (err e, h)
  continue (panic, h) f = (panic, h)

  -- The loop of `refreshChainHead`; `p` is the block point stored last.
  unfoldable pub store_slots : List ℕ → BlockPoint → Head S → Result HeadError BlockPoint × Head S
  unfolding continue
  store_slots [] p h = (ok p, h)
  store_slots (slot ∷ rest) p h =
      let skipped = store_slots rest p h in
      let fetched = continue (store_slot slot h (fetch_block node slot)) (store_slots rest) in
      if slot == h.chain_head_slot then skipped else fetched

  saved : Head S → Result StoreError (Unit {0}) × S → Result HeadError (Unit {0}) × Head S
  saved h (ok u, s) = (ok tt, record h { stored = s })
  saved h (err e, s) = (err (storage_error e), record h { stored = s })
  saved h (panic, s) = (panic, record h { stored = s })

  -- The end of `refreshChainHead`: a point of slot 0 is the zero value, for no block stored.
  unfoldable pub store_latest : BlockPoint → Head S → Result HeadError (Unit {0}) × Head S
  unfolding saved
  store_latest p h =
      if ltb 0 p.block_slot
      then saved h (storage.store_latest_block_point p h.stored)
      else (ok tt, h)

  -- The slot that a forced advance aims at, a uint64.
  abbrev advanced : HeadConfig → ℕ → ℕ
  advanced c slot =
      (slot + c.target_block_count + u64_mod - empty_slots_with_blocks_backoff) % u64_mod

  moved_to : ℕ → Head S → Result HeadError (Unit {0}) × Head S
  moved_to slot h = (
    ok tt,
    record h {
      chain_head_slot = slot;
      latest_state = record { chain_head_slot = slot; queried_blocks_with_slots_len = 0 };
    },
  )

  -- With one slot or none, the advance waits for the chain to get that far.
  advance_if_past : ℕ → Option ℕ → Head S → Result HeadError (Unit {0}) × Head S
  unfolding moved_to
  advance_if_past slot none h = (err no_slot, h)
  advance_if_past slot (some current) h =
      moved_to (if ltb current slot then h.chain_head_slot else slot) h

  unfoldable pub unstick_chain_head :
      HeadConfig → List ℕ → Head S → Result HeadError (Unit {0}) × Head S
  unfolding advance_if_past moved_to
  unstick_chain_head c [] h = advance_if_past (advanced c h.chain_head_slot) node.get_slot h
  unstick_chain_head c (slot ∷ []) h =
      advance_if_past (advanced c h.chain_head_slot) node.get_slot h
  unstick_chain_head c (slot ∷ following ∷ rest) h = moved_to (last_or following rest) h

  refreshed : ℕ → Result HeadError (Unit {0}) × Head S → Refreshed S
  refreshed wait (r, h) = record { idle_wait = wait; outcome = r; after = h }

  -- An error of the loop comes with no wait, one of the latest block point with the wait.
  stored_slots : ℕ → Result HeadError BlockPoint × Head S → Refreshed S
  unfolding refreshed
  stored_slots wait (ok p, h) = refreshed wait (store_latest p h)
  stored_slots wait (err e, h) = refreshed 0 (err e, h)
  stored_slots wait (panic, h) = refreshed 0 (panic, h)

  queried_slots : ℕ → Result ℕ (List ℕ) → Head S → Refreshed S
  unfolding stored_slots refreshed
  queried_slots wait (ok slots) h = stored_slots wait (store_slots slots zero_block_point h)
  queried_slots wait (err e) h = refreshed 0 (panic, h)
  queried_slots wait panic h = refreshed 0 (panic, h)

  -- What `refreshChainHead` does with the slots that `GetBlocks` returned.
  unfoldable pub refresh_with : HeadConfig → List ℕ → Head S → Refreshed S
  unfolding refreshed queried_slots
  refresh_with c slots h =
      let state = record_state h.chain_head_slot (length slots) in
      let wait =
        chain_head_catch_up_wait c.float_mul (length slots) c.target_block_count c.avg_slot_time in
      let h' = with_state h state in
      if same_state state h.latest_state
      then refreshed 0 (unstick_chain_head c slots h)
      else if length slots == 0
      then refreshed wait (ok tt, h')
      else queried_slots wait (get_slots_to_query_blocks slots c.block_rounding_threshold) h'

  refresh_answer : HeadConfig → Option (List ℕ) → Head S → Refreshed S
  unfolding refreshed
  refresh_answer c none h = refreshed 0 (ok tt, h)
  refresh_answer c (some slots) h = refresh_with c slots h

  unfoldable pub refresh_chain_head : HeadConfig → Head S → Refreshed S
  unfolding refresh_answer
  refresh_chain_head c h =
      refresh_answer c
        (node.get_blocks h.chain_head_slot ((h.chain_head_slot + c.slot_offset) % u64_mod)) h
