-- ===== src/Tracker/Tests.antt =====
-- The theorems on the tracker, applied to concrete nodes and windows.
use solana_infrastructure.Base.{
  length, ℕ, zero, suc, ◌+◌, ◌*◌, ◌<◌, ◌≤◌, ◌≡◌, refl, subst, ◌⊎◌, true, false, List, [], ◌∷◌, ◌++◌,
  Option, none, some, replicate, arith,
}
use solana_infrastructure.Store.Memory.{Memory, memory}
use solana_infrastructure.Store.Samples.{sample_codec, opened, some_value}
use solana_infrastructure.Base.{◌↔◌, Result, ok, err, if◌then◌else◌}
use solana_infrastructure.Base.Bytes.{Bytes, bytes_eq}
use solana_infrastructure.Store.Data.{StoreError, TxPoint, zero_tx_point}
use solana_infrastructure.Store.Samples.{first_tx, second_tx}
use solana_infrastructure.Tracker.Payload.{extract_solana_payload_from_ed25519}
use solana_infrastructure.Tracker.Payload.Signed.{
  SignedPayload, extract_solana_payload_from_ed25519_iff,
}
use solana_infrastructure.Tracker.Cpi.{
  Instruction, InnerInstruction, event_ix_tag_le, transaction_account_keys, collect_cpi_events,
  events_of_instructions, find_batch_payload_at_instruction,
}
use solana_infrastructure.Tracker.Cpi.Emitted.{Emits, all_instructions, collect_cpi_events-Emits}
use solana_infrastructure.Tracker.Cpi.Adjacent.{Found, find_batch_payload_at_instruction_iff}
use solana_infrastructure.Tracker.Processing.{
  Setting, Progress, ProcessError, no_block, parse_event, parse_with, inner_action_hash,
  handle_event, notify, collect_transaction_events, handle_events, process_response,
  fetch_next_get_full_tx_by_signature,
}
use solana_infrastructure.Tracker.Processing.Delivered.{
  Delivers, fetch_next_get_full_tx_by_signature-Delivers,
}
use solana_infrastructure.Tracker.Processing.Finalized.{
  fetch_next_get_full_tx_by_signature-finalizes,
}
use solana_infrastructure.Tracker.Retry.{timeout, execute_with_retry}
use solana_infrastructure.Tracker.Retry.Outcome.{
  goes_on, ends_with, execute_with_retry_ends, execute_with_retry_times_out,
}
use solana_infrastructure.Store.Memory.{memory-BoltLaws}
use solana_infrastructure.Store.Open.Fresh.{empty_log}
use solana_infrastructure.Store.Queue.Log.{Represents}
use solana_infrastructure.Store.Samples.{opened-Represents, first_tx-IsTxPoint, second_tx-IsTxPoint}
use solana_infrastructure.Tracker.Signatures.{
  TransactionSignature, SignatureNode, answers, store_new,
}
use solana_infrastructure.Tracker.Signatures.Queued.{chosen, queued_log, store_new-queues}
use solana_infrastructure.Tracker.Config.{
  nanoseconds, EventTrackerConfig, EventTracker, rate_limited, setup_client_new, authorities_of,
  new_event_tracker,
}
use solana_infrastructure.Tracker.Config.Accepted.{IsReady, new_event_tracker-IsReady}
use solana_infrastructure.Tracker.Slots.{slots_loop}
use solana_infrastructure.Tracker.Slots.Windows.{Rising, Spread, slots_loop_apart}
use solana_infrastructure.Tracker.Storage.{StorageHandler, bolt_storage}
use solana_infrastructure.Tracker.ChainHead.{
  fetch_block, Node, HeadConfig, Head, unstick_chain_head, refresh_chain_head,
}
use solana_infrastructure.Tracker.ChainHead.Progress.{
  unstick_chain_head_bounds, refresh_chain_head-le,
}

-- The third call succeeds.
abbrev third_time : ℕ → ℕ × Option ℕ
third_time zero = (0, some 7)
third_time (suc zero) = (0, some 7)
third_time (suc (suc n)) = (n + 5, none)

failed_before : (j : ℕ) → j < 2 → goes_on (λ e. true) third_time (λ n. false) j ≡ true
failed_before zero lt = refl
failed_before (suc zero) lt = refl
failed_before (suc (suc j)) lt = absurd (omega arith)

execute_with_retry_ends_example :
    execute_with_retry (λ e. true) third_time (λ n. false) 4 0
    ≡ ends_with (λ e. true) third_time (λ n. false) 2
execute_with_retry_ends_example =
    execute_with_retry_ends (λ e. true) third_time (λ n. false) 4 2 0 (omega arith) failed_before
      refl

execute_with_retry_times_out_example :
    (execute_with_retry (λ e. true) third_time (λ n. false) 2 0).1 ≡ some timeout
execute_with_retry_times_out_example =
    execute_with_retry_times_out (λ e. true) third_time (λ n. false) 2 0 failed_before

abbrev window : List ℕ
window = 1 ∷ 3 ∷ 4 ∷ 5 ∷ 9 ∷ 12 ∷ []

window-Rising : Rising 1 window
window-Rising =
    (omega arith, (omega arith, (omega arith, (omega arith, (omega arith, (omega arith, tt))))))

slots_loop_apart_example : Rising 1 (slots_loop 5 window) × Spread 5 (slots_loop 5 window)
slots_loop_apart_example = slots_loop_apart 5 1 window (omega arith) window-Rising

-- A node that lists slots 10 and 13, and whose blocks have the hash of zeros.
abbrev sample_node : Node
sample_node = record {
  get_blocks = λ start end. some (start ∷ (start + 3) ∷ []);
  get_block =
      λ slot n. some (some (record { blockhash = replicate 32 0; block_height = some slot }));
  get_slot = some 40;
  done = λ slot n. false;
}

abbrev sample_config : HeadConfig
sample_config = record {
  slot_offset = 80;
  target_block_count = 30;
  avg_slot_time = 166000000;
  block_rounding_threshold = 10;
  float_mul = λ a b. a * b;
}

abbrev sample_head : Head Memory
sample_head = record {
  chain_head_slot = 10;
  latest_state = record { chain_head_slot = 10; queried_blocks_with_slots_len = 0 };
  stored = opened;
}

abbrev sample_storage : StorageHandler Memory ℕ
sample_storage = bolt_storage memory sample_codec

listed-Rising : (l : List ℕ) → some (10 ∷ 13 ∷ []) ≡ some l → Rising 10 l
listed-Rising l e =
    subst (Rising 10) (some_value (10 ∷ 13 ∷ []) l e) (omega arith, (omega arith, tt))

unstick_chain_head_bounds_example :
    let h = (unstick_chain_head sample_storage sample_node sample_config (10 ∷ []) sample_head).1 in
    let after = h.chain_head_slot in
    (after ≡ 10) ⊎ ((current : ℕ) × (some 40 ≡ some current) × (after ≤ current))
unstick_chain_head_bounds_example =
    unstick_chain_head_bounds sample_storage sample_node sample_config (10 ∷ []) sample_head
      (omega arith) (omega arith) (omega arith)

refresh_chain_head-le_example :
    let r = refresh_chain_head sample_storage sample_node sample_config sample_head in
    10 ≤ r.after.chain_head_slot
refresh_chain_head-le_example =
    refresh_chain_head-le sample_storage sample_node sample_config sample_head (omega arith)
      (omega arith) (λ l end e. listed-Rising l e)

-- One signature over the message of the byte 5, which is the batch's id.
abbrev signed_data : Bytes
signed_data =
    1
    ∷ 0
    ∷ 48
    ∷ 0
    ∷ 255
    ∷ 255
    ∷ 16
    ∷ 0
    ∷ 255
    ∷ 255
    ∷ 112
    ∷ 0
    ∷ 1
    ∷ 0
    ∷ 255
    ∷ 255
    ∷ (replicate 96 9 ++ (5 ∷ []))

abbrev first_byte : Bytes → Option ℕ
first_byte [] = none
first_byte (n ∷ rest) = some n

extract_solana_payload_from_ed25519_iff_example :
    (extract_solana_payload_from_ed25519 first_byte signed_data 0 ≡ ok 5)
    ↔ ((m : Bytes) × SignedPayload first_byte signed_data 0 m 5)
extract_solana_payload_from_ed25519_iff_example =
    extract_solana_payload_from_ed25519_iff first_byte signed_data 0 5

-- Program 1 is tracked, with authority 2; key 3 is the ed25519 program's.
abbrev sample_keys : List Bytes
sample_keys = (1 ∷ []) ∷ (2 ∷ []) ∷ (3 ∷ []) ∷ []

abbrev sample_authority : Bytes → Option Bytes
sample_authority key = if bytes_eq key (1 ∷ []) then some (2 ∷ []) else none

abbrev self_cpi : Instruction
self_cpi = record {
  program_id_index = 0;
  accounts = 1 ∷ [];
  payload = event_ix_tag_le ++ (8 ∷ 8 ∷ []);
}

abbrev other_cpi : Instruction
other_cpi = record { program_id_index = 1; accounts = 1 ∷ []; payload = event_ix_tag_le }

abbrev sample_inner : List InnerInstruction
sample_inner = record { index = 1; instructions = other_cpi ∷ self_cpi ∷ [] } ∷ []

collect_cpi_events-Emits_example :
    Emits sample_keys sample_authority
      (all_instructions sample_inner)
      (collect_cpi_events sample_keys sample_authority sample_inner)
collect_cpi_events-Emits_example =
    collect_cpi_events-Emits sample_keys sample_authority sample_inner

abbrev sample_instructions : List Instruction
sample_instructions =
    record { program_id_index = 2; accounts = []; payload = signed_data } ∷ self_cpi ∷ []

find_batch_payload_at_instruction_iff_example :
    (find_batch_payload_at_instruction first_byte
        (λ n. n)
        (3 ∷ [])
        sample_instructions
        sample_keys
        1
        5
      ≡ ok 5)
    ↔ Found first_byte (λ n. n) (3 ∷ []) sample_instructions sample_keys 1 5 5
find_batch_payload_at_instruction_iff_example =
    find_batch_payload_at_instruction_iff first_byte (λ n. n) (3 ∷ []) sample_instructions
      sample_keys 1 5 5

-- A store that is the queue alone.
abbrev pop : Bytes → List TxPoint → Result StoreError (Unit {0}) × List TxPoint
pop signature [] = (err StoreError.queue_empty, [])
pop signature (p ∷ q) =
    if bytes_eq p.tx_signature signature
    then (ok tt, q)
    else (err (StoreError.not_at_front p.tx_signature signature), p ∷ q)

abbrev queue_storage : StorageHandler (List TxPoint) ℕ
queue_storage = record {
  store_block = λ p s. (ok tt, s);
  store_latest_block_point = λ p s. (ok tt, s);
  get_latest_block_point = λ s. (ok none, s);
  store_latest_finalized_block_number = λ n s. (ok tt, s);
  store_event = λ e s. (ok tt, s);
  get_processed_tx_signatures_by_slot = λ n s. (ok [], s);
  push_unprocessed_transactions = λ l s. (ok tt, s ++ l);
  get_all_unprocessed_transactions = λ s. (ok s, s);
  finalize_processed_transaction = pop;
  set_last_processed_transaction = λ p s. (ok tt, s);
  get_last_processed_transaction = λ s. (ok zero_tx_point, s);
  store_latest_queried_transaction = λ p s. (ok tt, s);
  get_latest_queried_transaction = λ s. (ok zero_tx_point, s);
}

-- The transaction has one event, which no specification fits.
abbrev sample_setting : Setting ℕ ℕ
sample_setting = record {
  tracked_programs = λ key. some [];
  event_authorities = sample_authority;
  executed_batch_id = λ d. none;
  unmarshal_payload = first_byte;
  marshal_payload = λ n. some (n ∷ []);
  payload_batch_id = λ n. n;
  sha256 = λ v. v;
  ed25519_program = 3 ∷ [];
  get_transaction = λ s. some (
      some (record {
        slot = 5;
        meta = some (record {
          failed = false;
          inner_instructions = some sample_inner;
          loaded_writable = [];
          loaded_read_only = [];
        });
        transaction =
            some (record { account_keys = sample_keys; instructions = sample_instructions });
      }));
  add_event = λ e. true;
}

-- Every event finds the same node.
abbrev sample_nodes : ℕ → Node
sample_nodes n = sample_node

abbrev sample_progress : Progress (List TxPoint) ℕ
sample_progress = record { stored = first_tx ∷ second_tx ∷ []; delivered = [] }

sample_run :
    (fetch_next_get_full_tx_by_signature sample_setting queue_storage sample_nodes
      sample_progress).0
    ≡ ok tt
unfolding fetch_next_get_full_tx_by_signature process_response handle_events parse_event
    collect_transaction_events collect_cpi_events events_of_instructions transaction_account_keys
    bytes_eq
sample_run = refl

fetch_next_get_full_tx_by_signature-finalizes_example :
    (before : List TxPoint) × (pop (replicate 64 1) before ≡ (
      ok tt,
      (fetch_next_get_full_tx_by_signature sample_setting queue_storage sample_nodes
          sample_progress).1.stored,
    ))
fetch_next_get_full_tx_by_signature-finalizes_example =
    fetch_next_get_full_tx_by_signature-finalizes sample_setting queue_storage sample_nodes
      sample_progress first_tx (second_tx ∷ []) (first_tx ∷ second_tx ∷ []) refl sample_run

-- A transaction with two events that a specification fits.
abbrev fitting_cpi : Instruction
fitting_cpi = record {
  program_id_index = 0;
  accounts = 1 ∷ [];
  payload = event_ix_tag_le ++ (replicate 8 4 ++ (6 ∷ []));
}

abbrev fitting_setting : Setting ℕ ℕ
fitting_setting = record sample_setting {
  tracked_programs = λ key.
      some (record { name = 7 ∷ []; discriminant = replicate 8 4; unmarshal = first_byte } ∷ []);
  get_transaction = λ s. some (
      some (record {
        slot = 5;
        meta = some (record {
          failed = false;
          inner_instructions = some (
              record { index = 1; instructions = fitting_cpi ∷ other_cpi ∷ fitting_cpi ∷ [] } ∷ []);
          loaded_writable = [];
          loaded_read_only = [];
        });
        transaction =
            some (record { account_keys = sample_keys; instructions = sample_instructions });
      }));
}

-- The node has the block for the first event, and no longer for the second.
abbrev fading_nodes : ℕ → Node
fading_nodes zero = sample_node
fading_nodes (suc n) = record sample_node { get_block = λ slot k. some none }

abbrev faded : Result ProcessError (Unit {0}) × Progress (List TxPoint) ℕ
faded =
    fetch_next_get_full_tx_by_signature fitting_setting queue_storage fading_nodes sample_progress

one_delivered : (faded.0 ≡ err no_block) × (length faded.1.delivered ≡ 1)
unfolding fetch_next_get_full_tx_by_signature process_response handle_events handle_event notify
    parse_event parse_with collect_transaction_events collect_cpi_events events_of_instructions
    transaction_account_keys inner_action_hash fetch_block execute_with_retry bytes_eq
one_delivered = (refl, refl)

fetch_next_get_full_tx_by_signature-Delivers_example :
    Delivers fitting_setting queue_storage fading_nodes
      (replicate 64 1)
      (first_tx ∷ second_tx ∷ [])
      []
      (fetch_next_get_full_tx_by_signature fitting_setting queue_storage fading_nodes
        sample_progress)
fetch_next_get_full_tx_by_signature-Delivers_example =
    fetch_next_get_full_tx_by_signature-Delivers fitting_setting queue_storage fading_nodes
      sample_progress first_tx (second_tx ∷ []) (first_tx ∷ second_tx ∷ []) refl

abbrev sample_signatures : SignatureNode ℕ
sample_signatures = record {
  get_block_height = some 4;
  get_signatures = λ q before until. answers [];
  is_cursor_not_found = λ e. false;
  done = λ round n. false;
}

abbrev older_signature : TransactionSignature
older_signature = record { signature = replicate 64 1; slot = 5 }

abbrev newer_signature : TransactionSignature
newer_signature = record { signature = replicate 64 2; slot = 6 }

store_new-queues_example :
    (t' : Memory) × (tail' : ℕ) × (store_new
        (bolt_storage memory sample_codec)
        sample_signatures
        6
        zero_tx_point
        4
        (newer_signature ∷ older_signature ∷ [])
        opened
      ≡ (ok tt, t'))
    × Represents memory t'
        (queued_log newer_signature
          (chosen 6 zero_tx_point (newer_signature ∷ older_signature ∷ []))
          empty_log)
        tail'
store_new-queues_example =
    store_new-queues memory sample_codec memory-BoltLaws (λ t. refl) sample_signatures 6 4
      zero_tx_point newer_signature (older_signature ∷ []) opened empty_log 0 opened-Represents
      (second_tx-IsTxPoint, (first_tx-IsTxPoint, tt)) (omega arith)

abbrev sample_tracker_config : EventTrackerConfig
sample_tracker_config = record {
  rpc_endpoint = 104 ∷ [];
  has_client = false;
  global_rps_limit = none;
  tracked_programs = (1 ∷ []) ∷ [];
  commitment = [];
  retry_timeout = nanoseconds 0;
  start_from_slot = 10;
  block_rounding_threshold = 0;
  avg_slot_time = nanoseconds 0;
  chain_head_target_block_count = 0;
  chain_head_slot_offset = 0;
  has_event_subscriber = true;
  disable_rate_limiting = false;
}

abbrev sample_tracker : EventTracker
sample_tracker = record {
  client = rate_limited (104 ∷ []) 7;
  event_authorities = (1 ∷ [], 2 ∷ []) ∷ [];
  confirmed = false;
  poll_time = nanoseconds 500000000;
  start_from_slot = 10;
  chain_head_slot = 10;
  chain_head_slot_offset = 80;
  chain_head_target_block_count = 30;
  avg_slot_time = 166000000;
  block_rounding_threshold = 10;
  latest_get_blocks_state = record { chain_head_slot = 10; queried_blocks_with_slots_len = 0 };
}

defaults_taken :
    new_event_tracker (λ text. some text) sample_authority (some sample_tracker_config) true
    ≡ ok sample_tracker
unfolding new_event_tracker authorities_of setup_client_new bytes_eq
defaults_taken = refl

new_event_tracker-IsReady_example : IsReady sample_tracker
new_event_tracker-IsReady_example =
    new_event_tracker-IsReady (λ text. some text) sample_authority (some sample_tracker_config) true
      sample_tracker defaults_taken
