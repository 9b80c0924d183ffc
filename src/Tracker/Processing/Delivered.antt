-- ===== src/Tracker/Processing/Delivered.antt =====
-- What the subscriber is given while the front of the queue is processed.
use solana_infrastructure.Base.{
  ℕ, ◌≡◌, refl, sym, ap, subst, Bool, true, false, List, ◌∷◌, Option, none, some, Result, ok, err,
  panic, or_fail,
}
use solana_infrastructure.Base.Bytes.{Bytes, bytes_eq}
use solana_infrastructure.Store.Data.{StoreError, TxPoint}
use solana_infrastructure.Store.Events.{Event}
use solana_infrastructure.Tracker.Action.{Action, after, computed, wrapped}
use solana_infrastructure.Tracker.ChainHead.{Node}
use solana_infrastructure.Tracker.Cpi.{InnerInstruction, transaction_account_keys}
use solana_infrastructure.Tracker.Storage.{StorageHandler}
use solana_infrastructure.Tracker.Processing.{
  Setting, Progress, ProcessError, Transaction, TransactionMeta, TransactionResponse, keeping,
  storage_error, with_inner, process_meta, process_response, answered, process_new, process_front,
  collect_transaction_events, fetch_next_get_full_tx_by_signature,
}
use solana_infrastructure.Tracker.Processing.Finalized.{front_runs}
use solana_infrastructure.Tracker.Processing.Notified.{
  err-ne_ok, panic-ne_ok, Notifies, handle_events-Notifies, then_finalize,
}

module _ {P D S : Type 0} (setting : Setting P D) (storage : StorageHandler S D) (node : ℕ → Node)
    (signature : Bytes) where
  -- The node's answer for the transaction, with its meta data.
  pub record Answers (response : TransactionResponse) (meta : TransactionMeta) : Type 0 where
    pub response_there : setting.get_transaction signature ≡ some (some response)
    pub meta_there : response.meta ≡ some meta

  -- Why there may be no notifications though nothing fails: the transaction is the one that the
  -- store `s` has as the last processed one, or failed, or has no inner instructions.
  pub data HasNoEvents (s : S) : Type 0 where
    processed_before :
        (last : TxPoint)
        → (storage.get_last_processed_transaction s).0 ≡ ok last
        → bytes_eq signature last.tx_signature ≡ true
        → HasNoEvents s
    failed_there :
        (response : TransactionResponse) (meta : TransactionMeta)
        → Answers response meta
        → meta.failed ≡ true
        → HasNoEvents s
    no_inner :
        (response : TransactionResponse) (meta : TransactionMeta)
        → Answers response meta
        → meta.inner_instructions ≡ none
        → HasNoEvents s

  -- What the subscriber was given after `l`: nothing, for one of these reasons if the run succeeds,
  -- or the notifications of the transaction's emitted events.
  pub data Delivers (s : S) (l : List (Event D))
      (out : Result ProcessError (Unit {0}) × Progress S D) : Type 0 where
    nothing : (out.0 ≡ ok tt → HasNoEvents s) → out.1.delivered ≡ l → Delivers s l out
    notifications :
        (response : TransactionResponse) (meta : TransactionMeta) (transaction : Transaction)
        (inner : List InnerInstruction)
        → Answers response meta
        → meta.failed ≡ false
        → response.transaction ≡ some transaction
        → meta.inner_instructions ≡ some inner
        → Notifies setting node signature response.slot transaction.instructions
            (transaction_account_keys transaction.account_keys meta.loaded_writable
              meta.loaded_read_only)
            storage
            l
            0
            (collect_transaction_events setting inner (
              transaction_account_keys transaction.account_keys meta.loaded_writable
                meta.loaded_read_only))
            out
        → Delivers s l out

  -- A step before it that delivers nothing.
  quiet-Delivers :
      {A : Type 0} (s : S) (l : List (Event D)) (x : Result ProcessError A × Progress S D)
      (f : A → Action ProcessError (Progress S D) (Unit {0}))
      → x.1.delivered ≡ l
      → ((a : A) (g : Progress S D) → x ≡ (ok a, g) → Delivers s l (f a g))
      → Delivers s l (after x f)
  quiet-Delivers s l (ok a, g) f e h = h a g refl
  quiet-Delivers s l (err x, g) f e h = nothing (λ k. absurd (err-ne_ok x tt k)) e
  quiet-Delivers s l (panic, g) f e h = nothing (λ k. absurd (panic-ne_ok tt k)) e

  with_inner-Delivers :
      (s : S) (response : TransactionResponse) (meta : TransactionMeta) (transaction : Transaction)
      (o : Option (List InnerInstruction)) (g : Progress S D)
      → Answers response meta
      → meta.failed ≡ false
      → response.transaction ≡ some transaction
      → meta.inner_instructions ≡ o
      → Delivers s g.delivered
          (with_inner setting storage node signature response.slot meta transaction o g)
  with_inner-Delivers s response meta transaction none g a f t i =
      nothing (λ k. no_inner response meta a i) refl
  with_inner-Delivers s response meta transaction (some inner) g a f t i =
      notifications response meta transaction inner a f t i (
        then_finalize setting node signature response.slot transaction.instructions _ storage
          g.delivered 0 _ _
          (handle_events-Notifies setting node signature response.slot transaction.instructions _
            storage 0 _ g))

  or_fail-some :
      {A : Type 0} (o : Option A) (x : ProcessError) (a : A) → or_fail o x ≡ ok a → o ≡ some a
  or_fail-some none x a e = absurd cc
  or_fail-some (some b) x a e = cc

  process_meta-Delivers :
      (s : S) (response : TransactionResponse) (meta : TransactionMeta) (failed : Bool)
      (g : Progress S D)
      → Answers response meta
      → meta.failed ≡ failed
      → Delivers s g.delivered (process_meta setting storage node signature response meta failed g)
  process_meta-Delivers s response meta true g a f =
      nothing (λ k. failed_there response meta a f) refl
  process_meta-Delivers s response meta false g a f =
      quiet-Delivers s g.delivered (computed (or_fail response.transaction _) g) _ refl
        (λ transaction g' e.
          subst
            (λ l. Delivers s l (
              with_inner setting storage node signature response.slot meta transaction
                meta.inner_instructions g'))
            (ap (λ x. x.1.delivered) (sym e))
            (with_inner-Delivers s response meta transaction meta.inner_instructions g' a f
              (or_fail-some response.transaction _ transaction (ap (λ x. x.0) e)) refl))

  process_response-Delivers :
      (s : S) (response : TransactionResponse) (g : Progress S D)
      → setting.get_transaction signature ≡ some (some response)
      → Delivers s g.delivered (process_response setting storage node signature response g)
  unfolding process_response
  process_response-Delivers s response g there =
      quiet-Delivers s g.delivered (computed (or_fail response.meta _) g) _ refl (λ meta g' e.
        subst
          (λ l.
            Delivers s l (process_meta setting storage node signature response meta meta.failed g'))
          (ap (λ x. x.1.delivered) (sym e))
          (process_meta-Delivers s response meta meta.failed g'
            (record {
              response_there = there;
              meta_there = or_fail-some response.meta _ meta (ap (λ x. x.0) e);
            })
            refl))

  answered_some :
      (o : Option (Option TransactionResponse)) (response : TransactionResponse)
      → answered setting storage node o ≡ ok response
      → o ≡ some (some response)
  answered_some none response e = absurd cc
  answered_some (some none) response e = absurd cc
  answered_some (some (some r)) response e = cc

  process_new-Delivers :
      (s : S) (last : TxPoint) (again : Bool) (g : Progress S D)
      → (storage.get_last_processed_transaction s).0 ≡ ok last
      → bytes_eq signature last.tx_signature ≡ again
      → Delivers s g.delivered (process_new setting storage node signature again g)
  process_new-Delivers s last true g there same =
      nothing (λ k. processed_before last there same) refl
  process_new-Delivers s last false g there same =
      quiet-Delivers s g.delivered
        (computed (answered setting storage node (setting.get_transaction signature)) g) _ refl
        (λ response g' e.
          subst (λ l. Delivers s l (process_response setting storage node signature response g'))
            (ap (λ x. x.1.delivered) (sym e))
            (process_response-Delivers s response g'
              (answered_some (setting.get_transaction signature) response (ap (λ x. x.0) e))))

  wrapped_ok :
      {A : Type 0} (x : Result StoreError A × S) (a : A)
      → (wrapped storage_error x).0 ≡ ok a
      → x.0 ≡ ok a
  wrapped_ok (ok b, s) a e = cc
  wrapped_ok (err x, s) a e = absurd cc
  wrapped_ok (panic, s) a e = absurd cc

  process_front-Delivers :
      (front : TxPoint) (rest : List TxPoint) (g : Progress S D)
      → front.tx_signature ≡ signature
      → Delivers g.stored g.delivered (process_front setting storage node (front ∷ rest) g)
  process_front-Delivers front rest g same =
      quiet-Delivers g.stored g.delivered
        (keeping setting storage node g
          (wrapped storage_error (storage.get_last_processed_transaction g.stored)))
        _ refl
        (λ last g' e.
          subst
            (λ x.
              Delivers g.stored g.delivered
                (process_new setting storage node x (bytes_eq x last.tx_signature) g'))
            (sym same)
            (subst
              (λ l. Delivers g.stored l (
                process_new setting storage node signature (bytes_eq signature last.tx_signature)
                  g'))
              (ap (λ x. x.1.delivered) (sym e))
              (process_new-Delivers g.stored last (bytes_eq signature last.tx_signature) g'
                (wrapped_ok (storage.get_last_processed_transaction g.stored) last
                  (ap (λ x. x.0) e))
                refl)))

module _ {P D S : Type 0} (setting : Setting P D) (storage : StorageHandler S D)
    (node : ℕ → Node) where
  -- If the queue's front is `front`, then whatever `fetchNextGetFullTxBySignature` returns, errors
  -- included, the subscriber was given, after what it had before, the notifications of the events
  -- that the front's transaction emitted and that are not passed over, one for each, in order and
  -- with the transaction's signature and slot, the block's number, and what the event was parsed to
  -- and its payload's hash; they stop early only on an error. Without any, a run that succeeds has
  -- found the front to be the last processed transaction, or its transaction to have failed or to
  -- have no inner instructions.
  pub fetch_next_get_full_tx_by_signature-Delivers :
      (g : Progress S D) (front : TxPoint) (rest : List TxPoint) (s : S)
      → storage.get_all_unprocessed_transactions g.stored ≡ (ok (front ∷ rest), s)
      → Delivers setting storage node front.tx_signature s g.delivered
          (fetch_next_get_full_tx_by_signature setting storage node g)
  fetch_next_get_full_tx_by_signature-Delivers g front rest s queued =
      subst (Delivers setting storage node front.tx_signature s g.delivered)
        (front_runs setting storage node g front rest s queued)
        (process_front-Delivers setting storage node front.tx_signature front rest
          (record g { stored = s }) refl)
