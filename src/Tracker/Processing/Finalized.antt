-- ===== src/Tracker/Processing/Finalized.antt =====
-- How the processing of the front of the queue ends.
use solana_infrastructure.Base.{
  ℕ, ◌≡◌, refl, ap, ◌∙◌, Bool, true, false, List, ◌∷◌, Option, none, some, Result, ok, err, panic,
}
use solana_infrastructure.Base.Bytes.{Bytes, bytes_eq}
use solana_infrastructure.Store.Data.{StoreError, TxPoint}
use solana_infrastructure.Tracker.Action.{Action, after, wrapped}
use solana_infrastructure.Tracker.ChainHead.{Node}
use solana_infrastructure.Tracker.Cpi.{InnerInstruction}
use solana_infrastructure.Tracker.Storage.{StorageHandler}
use solana_infrastructure.Tracker.Processing.{
  Setting, Progress, ProcessError, storage_error, Transaction, TransactionMeta, TransactionResponse,
  keeping, finalize, with_inner, process_meta, process_response, process_new, process_front,
  fetch_next_get_full_tx_by_signature,
}

clash : {A : Type 0} (x : ProcessError) (a : A) → Path (Result ProcessError A) (err x) (ok a) → ⊥
clash x a e = cc

clash_panic : {A : Type 0} {a : A} → Path (Result ProcessError A) panic (ok a) → ⊥
clash_panic e = cc

module _ {P D S : Type 0} (setting : Setting P D) (storage : StorageHandler S D)
    (node : ℕ → Node) where
  -- A run that succeeds ends with the finalization of the signature.
  abbrev Ends : Bytes → Result ProcessError (Unit {0}) × Progress S D → Type 0
  Ends signature out =
      out.0 ≡ ok tt → (g : Progress S D) × (finalize setting storage node signature g ≡ out)

  after-Ends :
      {A : Type 0} (signature : Bytes) (x : Result ProcessError A × Progress S D)
      (f : A → Action ProcessError (Progress S D) (Unit {0}))
      → ((a : A) (g : Progress S D) → Ends signature (f a g))
      → Ends signature (after x f)
  after-Ends signature (ok a, g) f h = h a g
  after-Ends signature (err e, g) f h = λ e. absurd cc
  after-Ends signature (panic, g) f h = λ e. absurd cc

  with_inner-Ends :
      (signature : Bytes) (slot : ℕ) (meta : TransactionMeta) (transaction : Transaction)
      (o : Option (List InnerInstruction)) (g : Progress S D)
      → Ends signature (with_inner setting storage node signature slot meta transaction o g)
  with_inner-Ends signature slot meta transaction none g = λ e. (g, refl)
  with_inner-Ends signature slot meta transaction (some inner) g =
      after-Ends signature _ _ (λ u g'. λ e. (g', refl))

  process_meta-Ends :
      (signature : Bytes) (response : TransactionResponse) (meta : TransactionMeta) (failed : Bool)
      (g : Progress S D)
      → Ends signature (process_meta setting storage node signature response meta failed g)
  process_meta-Ends signature response meta true g = λ e. (g, refl)
  process_meta-Ends signature response meta false g = after-Ends signature _ _ (λ transaction g'.
      with_inner-Ends signature response.slot meta transaction meta.inner_instructions g')

  process_response-Ends :
      (signature : Bytes) (response : TransactionResponse) (g : Progress S D)
      → Ends signature (process_response setting storage node signature response g)
  unfolding process_response
  process_response-Ends signature response g =
      after-Ends signature _ _ (λ meta g'. process_meta-Ends signature response meta meta.failed g')

  process_new-Ends :
      (signature : Bytes) (again : Bool) (g : Progress S D)
      → Ends signature (process_new setting storage node signature again g)
  process_new-Ends signature true g = λ e. (g, refl)
  process_new-Ends signature false g =
      after-Ends signature _ _ (λ response g'. process_response-Ends signature response g')

  process_front-Ends :
      (front : TxPoint) (rest : List TxPoint) (g : Progress S D)
      → Ends front.tx_signature (process_front setting storage node (front ∷ rest) g)
  process_front-Ends front rest g = after-Ends front.tx_signature _ _ (λ last g'.
      process_new-Ends front.tx_signature (bytes_eq front.tx_signature last.tx_signature) g')

  stored-ok :
      (g : Progress S D) (x : Result StoreError (Unit {0}) × S)
      (out : Result ProcessError (Unit {0}) × Progress S D)
      → keeping setting storage node g (wrapped storage_error x) ≡ out
      → out.0 ≡ ok tt
      → x ≡ (ok tt, out.1.stored)
  stored-ok g (ok u, s) out e fine = ap (λ o. (ok tt, o.1.stored)) e
  stored-ok g (err x, s) out e fine = absurd (clash _ _ (ap (λ o. o.0) e ∙ fine))
  stored-ok g (panic, s) out e fine = absurd (clash_panic (ap (λ o. o.0) e ∙ fine))

  pub front_runs :
      (g : Progress S D) (front : TxPoint) (rest : List TxPoint) (s : S)
      → storage.get_all_unprocessed_transactions g.stored ≡ (ok (front ∷ rest), s)
      → process_front setting storage node (front ∷ rest) (record g { stored = s })
        ≡ fetch_next_get_full_tx_by_signature setting storage node g
  unfolding fetch_next_get_full_tx_by_signature
  front_runs g front rest s queued = rw queued refl

  -- If the queue's front is `front` and `fetchNextGetFullTxBySignature` returns no error, then its
  -- last step was a finalization of `front` that succeeded: a failed transaction, one without
  -- inner instructions or events, and events that are passed over never leave the front in place.
  pub fetch_next_get_full_tx_by_signature-finalizes :
      (g : Progress S D) (front : TxPoint) (rest : List TxPoint) (s : S)
      → storage.get_all_unprocessed_transactions g.stored ≡ (ok (front ∷ rest), s)
      → (fetch_next_get_full_tx_by_signature setting storage node g).0 ≡ ok tt
      → (before : S) × (storage.finalize_processed_transaction front.tx_signature before
          ≡ (ok tt, (fetch_next_get_full_tx_by_signature setting storage node g).1.stored))
  fetch_next_get_full_tx_by_signature-finalizes g front rest s queued e =
      let same = front_runs g front rest s queued in
      let (g', ends) =
        process_front-Ends front rest (record g { stored = s }) (ap (λ o. o.0) same ∙ e) in
      (g'.stored, stored-ok g' _ _ (ends ∙ same) e)
