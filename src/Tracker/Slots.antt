-- ===== src/Tracker/Slots.antt =====
-- tracker/tracker.go: which slots of a window have their blocks stored, and how long the refresher
-- waits for blocks that are missing.
pub mod Windows
use solana_infrastructure.Base.{
  ℕ, zero, suc, ◌+◌, ◌-◌, ◌/◌, ◌%◌, Bool, true, false, not, ◌&&◌, List, [], ◌∷◌, Result, ok, panic,
  length, leb, ◌==◌, if◌then◌else◌,
}

-- The slot before the first one of a later group of `threshold` slots, unless that one is a multiple.
unfoldable pub closes_group : ℕ → ℕ → List ℕ → Bool
closes_group threshold slot [] = false
closes_group threshold slot (following ∷ rest) =
    not (following / threshold == slot / threshold) && not (following % threshold == 0)

unfoldable pub slots_loop : ℕ → List ℕ → List ℕ
slots_loop threshold [] = []
slots_loop threshold (slot ∷ rest) =
    let later = slots_loop threshold rest in
    if slot % threshold == 0
    then slot ∷ later
    else if closes_group threshold slot rest
    then slot ∷ later
    else later

-- Go's `%` panics on a zero divisor, which a window with no slot does not reach.
unfoldable pub get_slots_to_query_blocks : List ℕ → ℕ → Result ℕ (List ℕ)
get_slots_to_query_blocks [] threshold = ok []
get_slots_to_query_blocks (slot ∷ rest) threshold =
    if threshold == 0 then panic else ok (slots_loop threshold (slot ∷ rest))

-- `float_mul` is the product of two uint64 values in float64, as a duration.
unfoldable pub chain_head_catch_up_wait : (ℕ → ℕ → ℕ) → ℕ → ℕ → ℕ → ℕ
chain_head_catch_up_wait float_mul blocks_with_slots target avg_slot_time =
    if leb target blocks_with_slots then 0 else float_mul (target - blocks_with_slots) avg_slot_time
