-- ===== src/Tracker/Signatures.antt =====
-- tracker/tracker.go: the query for new transactions, which are queued for processing.
pub mod Queued
use solana_infrastructure.Base.{
  ℕ, zero, suc, Bool, true, false, not, ◌&&◌, List, [], ◌∷◌, ◌++◌, map, keep, Option, none, some,
  Result, ok, err, panic, or_fail, length, ltb, leb, ◌==◌, if◌then◌else◌, ◌>>=◌ as ◌⟫=◌,
}
use solana_infrastructure.Base.Bytes.{Bytes, bytes_eq}
use solana_infrastructure.Store.Data.{StoreError, TxPoint, zero_signature}
use solana_infrastructure.Store.Events.{is_seen}
use solana_infrastructure.Tracker.Action.{Action, ◌>>=◌, ◌>>◌, computed, storing}
use solana_infrastructure.Tracker.Retry.{RetryError, execute_with_retry}
use solana_infrastructure.Tracker.Storage.{StorageHandler}

-- rpc.TransactionSignature, as far as it is read.
pub record TransactionSignature : Type 0 where
  pub signature : Bytes
  pub slot : ℕ

pub data Answer (E : Type 0) : Type 0 where
  answers : List TransactionSignature → Answer E
  fails : E → Answer E

-- The queries in one fetch: until the last queried one, by slot, and those of the catch-up's rounds
-- with their attempts.
pub data Query : Type 0 where
  until_last : Query
  by_slot : Query
  catching_up : ℕ → ℕ → Query

-- The node's answers; `E` is the client's error, `is_cursor_not_found` is `IsCursorNotFoundErr`,
-- and `done round n` says whether the context ends in the wait after an attempt.
pub record SignatureNode (E : Type 0) : Type 0 where
  pub get_block_height : Option ℕ
  pub get_signatures : Query → Option Bytes → Option Bytes → Answer E
  pub is_cursor_not_found : E → Bool
  pub done : ℕ → ℕ → Bool

pub data FetchError (E : Type 0) : Type 0 where
  no_height : FetchError E
  rpc_error : E → FetchError E
  retry_error : RetryError E → FetchError E
  storage_error : StoreError → FetchError E
  out_of_fuel : FetchError E

abbrev pub get_signatures_for_address_max_limit : ℕ
get_signatures_for_address_max_limit = 1000

-- An option is set for a signature that is given and not zero.
abbrev non_zero : Option Bytes → Option Bytes
non_zero none = none
non_zero (some s) = if bytes_eq s zero_signature then none else some s

-- `>=`, since a slot may hold more than one transaction.
abbrev pub keep_from : ℕ → List TransactionSignature → List TransactionSignature
keep_from slot = keep (λ s. leb slot s.slot)

-- The signature of the last one; the index is out of range for no signature.
abbrev last_signature : List TransactionSignature → Option Bytes
last_signature [] = none
last_signature (s ∷ []) = some s.signature
last_signature (s ∷ t ∷ rest) = last_signature (t ∷ rest)

module _ {E : Type 0} (node : SignatureNode E) where
  unfoldable pub get_signatures_for_address_helper : Query → Option Bytes → Option Bytes → Answer E
  get_signatures_for_address_helper q before until =
      node.get_signatures q (non_zero before) (non_zero until)

  -- Every error is one to try again after.
  abbrev attempt : Answer E → List TransactionSignature × Option E
  attempt (answers l) = (l, none)
  attempt (fails e) = ([], some e)

  unfoldable pub fetch_page : ℕ → Bytes → Bytes → List TransactionSignature × Option (RetryError E)
  unfolding get_signatures_for_address_helper
  fetch_page round before until =
      execute_with_retry (λ e. true)
        (λ n.
          attempt
            (get_signatures_for_address_helper (catching_up round n) (some before) (some until)))
        (node.done round) 10 []

  abbrev fetched :
      List TransactionSignature × Option (RetryError E)
      → Result (FetchError E) (List TransactionSignature)
  fetched (l, none) = ok l
  fetched (l, some e) = err (retry_error e)

  abbrev going_on :
      Option Bytes
      → (Bytes → Result (FetchError E) (List TransactionSignature))
      → Result (FetchError E) (List TransactionSignature)
  going_on none f = panic
  going_on (some before) f = f before

  -- The rounds of `catchUpLoop`; `slot` is the last queried slot, `signatures` what is collected.
  unfoldable pub catch_up_rounds :
      ℕ
      → ℕ
      → Bytes
      → Bool
      → ℕ
      → Bytes
      → List TransactionSignature
      → Result (FetchError E) (List TransactionSignature)
  catch_up_rounds zero round until cursor_not_found slot before signatures = err out_of_fuel
  catch_up_rounds (suc fuel) round until cursor_not_found slot before signatures =
      fetched (fetch_page round before until) ⟫= λ page.
      let appended = if cursor_not_found then keep_from slot page else page in
      elim (ltb (length appended) get_signatures_for_address_max_limit) [
        | true ↦ ok (signatures ++ appended)
        | false ↦ going_on (last_signature page) (λ next.
            catch_up_rounds fuel (suc round) until cursor_not_found slot next
              (signatures ++ appended))
      ]

  -- With the cursor lost, the query goes to the beginning.
  unfoldable pub catch_up_loop :
      ℕ → TxPoint → Bytes → Bool → Result (FetchError E) (List TransactionSignature)
  catch_up_loop fuel last_queried before_start cursor_not_found =
      catch_up_rounds fuel 0
        (if cursor_not_found then zero_signature else last_queried.tx_signature) cursor_not_found
        last_queried.slot before_start []

  -- A full page is followed by what was before it.
  abbrev complete :
      ℕ
      → TxPoint
      → Bool
      → List TransactionSignature
      → Result (FetchError E) (List TransactionSignature)
  complete fuel last_queried cursor_not_found l =
      let older =
        going_on (last_signature l)
          (λ before. catch_up_loop fuel last_queried before cursor_not_found) in
      if length l == get_signatures_for_address_max_limit
      then (older ⟫= λ more. ok (l ++ more))
      else ok l

  abbrev by_slot_instead :
      ℕ → TxPoint → Answer E → Result (FetchError E) (List TransactionSignature)
  by_slot_instead fuel last_queried (answers l) =
      complete fuel last_queried true (keep_from last_queried.slot l)
  by_slot_instead fuel last_queried (fails e) = err (rpc_error e)

  abbrev first_answer : ℕ → TxPoint → Answer E → Result (FetchError E) (List TransactionSignature)
  first_answer fuel last_queried (answers l) = complete fuel last_queried false l
  first_answer fuel last_queried (fails e) =
      if node.is_cursor_not_found e
      then by_slot_instead fuel last_queried (get_signatures_for_address_helper by_slot none none)
      else err (rpc_error e)

  unfoldable pub signatures_for_address_fetcher :
      ℕ → TxPoint → Result (FetchError E) (List TransactionSignature)
  signatures_for_address_fetcher fuel last_queried =
      first_answer fuel last_queried
        (get_signatures_for_address_helper until_last none (some last_queried.tx_signature))

-- The last processed signature, unless there is none.
abbrev known_signature : TxPoint → List Bytes
known_signature p = if bytes_eq p.tx_signature zero_signature then [] else p.tx_signature ∷ []

abbrev pub point_of : TransactionSignature → TxPoint
point_of s = record { tx_signature = s.signature; slot = s.slot }

abbrev pub oldest_first :
    List TransactionSignature → List TransactionSignature → List TransactionSignature
oldest_first [] acc = acc
oldest_first (s ∷ l) acc = oldest_first l (s ∷ acc)

-- The points to queue, oldest first. On the first run, those before the start are left out.
unfoldable pub points_to_queue : ℕ → TxPoint → List TransactionSignature → List TxPoint
points_to_queue start_from_slot last_queried l = map point_of (
    keep
      (λ s. not (bytes_eq last_queried.tx_signature zero_signature && ltb s.slot start_from_slot))
      (oldest_first l []))

abbrev pub last_point : TxPoint → List TxPoint → TxPoint
last_point p [] = p
last_point p (q ∷ rest) = last_point q rest

module _ {S D E : Type 0} (storage : StorageHandler S D) (node : SignatureNode E) where
  -- The map of known signatures, as a list.
  unfoldable pub get_queued_tx_signatures : ℕ → Action (FetchError E) S (List Bytes)
  get_queued_tx_signatures slot = do
    unprocessed ← storing storage_error storage.get_all_unprocessed_transactions
    processed ← storing storage_error (storage.get_processed_tx_signatures_by_slot slot)
    last_processed ← storing storage_error storage.get_last_processed_transaction
    computed (
        ok (known_signature last_processed ++ (map (λ p. p.tx_signature) unprocessed ++ processed)))

  abbrev store_points : TransactionSignature → List TxPoint → Action (FetchError E) S (Unit {0})
  store_points newest [] = do
    storing storage_error (storage.set_last_processed_transaction (point_of newest))
    storing storage_error (storage.store_latest_queried_transaction (point_of newest))
  store_points newest (p ∷ rest) = do
    storing storage_error (storage.push_unprocessed_transactions (p ∷ rest))
    storing storage_error (storage.store_latest_queried_transaction (last_point p rest))

  -- What is done with the signatures that are not known yet.
  unfoldable pub store_new :
      ℕ → TxPoint → ℕ → List TransactionSignature → Action (FetchError E) S (Unit {0})
  store_new start_from_slot last_queried height [] =
      storing storage_error (storage.store_latest_finalized_block_number height)
  store_new start_from_slot last_queried height (newest ∷ rest) =
      store_points newest (points_to_queue start_from_slot last_queried (newest ∷ rest))

  unfoldable pub fetch_next_get_signatures_for_address :
      ℕ → ℕ → TxPoint → Action (FetchError E) S (Unit {0})
  fetch_next_get_signatures_for_address fuel start_from_slot last_queried = do
    height ← computed (or_fail node.get_block_height no_height)
    l ← computed (signatures_for_address_fetcher node fuel last_queried)
    queued ← get_queued_tx_signatures last_queried.slot
    store_new start_from_slot last_queried height (keep (λ s. not (is_seen s.signature queued)) l)
