-- ===== src/Store/Queue/Finalize.antt =====
-- `FinalizeProcessedTransaction` and the two markers against their specification.
use solana_infrastructure.Base.{
  ℕ, suc, ◌+◌, ◌<◌, ◌≡◌, ◌≢◌, refl, ap, ◌∙◌, subst, true, false, List, [], ◌∷◌, append-nil, none,
  some, Bool-cases, inl, inr, ok, err, length, arith,
}
use solana_infrastructure.Base.Bytes.{
  Bytes, u64_mod, bytes_eq, encode_uint64, length-encode_uint64, decode-encode_uint64,
}
use solana_infrastructure.Store.Bolt.{Bolt, BoltLaws}
use solana_infrastructure.Store.Data.{
  StoreError, TxPoint, encode_tx_point, length-encode_tx_point, head_key, tail_key,
  last_processed_key, last_queried_key, tx_point-encode_tx_point,
}
use solana_infrastructure.Store.Queue.{
  queue_bucket, decoded_or, tx_point_or_zero, store_tx_queue_head, remove_transaction_in_bucket,
  set_last_processed_transaction_in_bucket, finalize_processed_transaction,
}
use solana_infrastructure.Store.Queue.Settled.{Settles, kept, finish-Settles, Settles-committed}
use solana_infrastructure.Store.Queue.Keys.{bytes_eq-encode_uint64, index_key-ne, key-ne_index}
use solana_infrastructure.Store.Queue.Log.{
  TxLog, Entries, Represents, finalizes, spec, pop_front, finalize_outcome,
}
use solana_infrastructure.Store.Queue.Frame.{
  Changed, Entries-frame, put-Changed, delete-Changed, load_tx_queue_bounds_lem,
  unprocessed_tx_signatures_bucket_lem,
}

module _ (b : Bolt) where
  open b use {Tx, has_bucket, get}

  popped :
      (p : TxPoint) (q : List TxPoint) (t t1 t2 t3 : Tx) (s : TxLog) (tail : ℕ)
      → (r : Represents b t s tail) → s.queue ≡ p ∷ q
      → Changed b (encode_uint64 r.head) none t t1
      → Changed b head_key (some (encode_uint64 (suc r.head))) t1 t2
      → Changed b last_processed_key (some (encode_tx_point p)) t2 t3
      → Represents b t3 (record s { queue = q; last_processed = p }) tail
  unfolding bytes_eq
  popped p q t t1 t2 t3 s tail r front c1 c2 c3 =
      let (here, fits, rest) = subst (Entries b t r.head) front r.entries in
      let spans = r.spans ∙ ap (λ l. r.head + length l) front in
      record {
        head = suc r.head;
        bucket = c3.buckets ∙ c2.buckets ∙ c1.buckets ∙ r.bucket;
        head_stored =
            ap (decoded_or 0) (c3.elsewhere head_key refl ∙ c2.at_key)
            ∙ rw append-nil at (
                decode-encode_uint64 {E = StoreError} (suc r.head) []
                  (omega (arith, spans, r.tail_fits)));
        tail_stored = ap (decoded_or 0) (named tail_key refl refl (omega arith)) ∙ r.tail_stored;
        spans = omega (arith, spans);
        tail_fits = r.tail_fits;
        entries =
            Entries-frame b t t3 (suc r.head) q
              (λ j lo hi. index j (omega arith) (omega (arith, spans, r.tail_fits))) rest;
        processed_stored = ap tx_point_or_zero c3.at_key ∙ tx_point-encode_tx_point p fits;
        queried_stored =
            ap tx_point_or_zero (named last_queried_key refl refl (omega arith)) ∙ r.queried_stored;
      }
    where
      named :
          (key : Bytes)
          → bytes_eq key last_processed_key ≡ false
          → bytes_eq key head_key ≡ false
          → length key ≢ 8
          → get queue_bucket key t3 ≡ get queue_bucket key t
      named key n3 n2 n1 =
          c3.elsewhere key n3 ∙ c2.elsewhere key n2 ∙ c1.elsewhere key (key-ne_index r.head key n1)

      index :
          (j : ℕ)
          → r.head < j
          → j < u64_mod
          → get queue_bucket (encode_uint64 j) t3 ≡ get queue_bucket (encode_uint64 j) t
      index j lo hi =
          c3.elsewhere _ (index_key-ne j last_processed_key (omega arith))
          ∙ c2.elsewhere _ (index_key-ne j head_key (omega arith))
          ∙ c1.elsewhere _ (ground (arith, bytes_eq-encode_uint64 j r.head))

module _ (b : Bolt) (laws : BoltLaws b) where
  open b use {Tx, has_bucket, get, put, delete, commits}

  -- The transaction that `finalize` leaves, from the writes it makes.
  finalize_runs :
      (p : TxPoint) (q : List TxPoint) (signature : Bytes) (t t1 t2 t3 : Tx) (s : TxLog) (tail : ℕ)
      → (r : Represents b t s tail) → s.queue ≡ p ∷ q
      → bytes_eq p.tx_signature signature ≡ true
      → delete queue_bucket (encode_uint64 r.head) t ≡ some t1
      → put queue_bucket head_key (encode_uint64 (suc r.head)) t1 ≡ some t2
      → put queue_bucket last_processed_key (encode_tx_point p) t2 ≡ some t3
      → Settles b t t3 (ok tt) (finalize_processed_transaction b signature t)
  unfolding finalize_processed_transaction remove_transaction_in_bucket store_tx_queue_head
      set_last_processed_transaction_in_bucket
  finalize_runs p q signature t t1 t2 t3 s tail r front match e1 e2 e3 =
      let (here, fits, rest) = subst (Entries b t r.head) front r.entries in
      let spans = r.spans ∙ ap (λ q. r.head + length q) front in
      finish-Settles b t t3 _ (
        ground (
          arith,
          unprocessed_tx_signatures_bucket_lem b t s tail r,
          load_tx_queue_bounds_lem b t s tail r,
          here,
          tx_point-encode_tx_point p fits,
          spans,
          r.tail_fits,
          match,
          e1,
          e2,
          e3,
        ))

  finalize_front :
      (p : TxPoint) (q : List TxPoint) (signature : Bytes) (t : Tx) (s : TxLog) (tail : ℕ)
      → Represents b t s tail
      → s.queue ≡ p ∷ q
      → bytes_eq p.tx_signature signature ≡ true
      → (t' : Tx) × Settles b t t' (ok tt) (finalize_processed_transaction b signature t)
        × Represents b t' (record s { queue = q; last_processed = p }) tail
  finalize_front p q signature t s tail r front match =
      let (here, fits, rest) = subst (Entries b t r.head) front r.entries in
      let (t1, e1, c1) = delete-Changed b laws (encode_uint64 r.head) t r.bucket in
      let (t2, e2, c2) =
        put-Changed b laws head_key (encode_uint64 (suc r.head)) t1 (c1.buckets ∙ r.bucket)
          (omega arith) (omega arith) (omega (arith, length-encode_uint64 (suc r.head))) in
      let (t3, e3, c3) =
        put-Changed b laws last_processed_key (encode_tx_point p) t2
          (c2.buckets ∙ c1.buckets ∙ r.bucket) (omega arith) (omega arith)
          (omega (arith, length-encode_tx_point p fits)) in
      (
        t3,
        finalize_runs p q signature t t1 t2 t3 s tail r front match e1 e2 e3,
        popped b p q t t1 t2 t3 s tail r front c1 c2 c3,
      )

  finalize_empty :
      (signature : Bytes) (t : Tx) (s : TxLog) (tail : ℕ)
      → Represents b t s tail
      → s.queue ≡ []
      → finalize_processed_transaction b signature t ≡ (err StoreError.queue_empty, t)
  unfolding finalize_processed_transaction remove_transaction_in_bucket
  finalize_empty signature t s tail r front = ground (
    arith,
    unprocessed_tx_signatures_bucket_lem b t s tail r,
    load_tx_queue_bounds_lem b t s tail r,
    r.spans,
    ap length front,
  )

  finalize_other :
      (p : TxPoint) (q : List TxPoint) (signature : Bytes) (t : Tx) (s : TxLog) (tail : ℕ)
      → Represents b t s tail
      → s.queue ≡ p ∷ q
      → bytes_eq p.tx_signature signature ≡ false
      → finalize_processed_transaction b signature t
        ≡ (err (StoreError.not_at_front signature p.tx_signature), t)
  unfolding finalize_processed_transaction remove_transaction_in_bucket
  finalize_other p q signature t s tail r front other =
      let (here, fits, rest) = subst (Entries b t r.head) front r.entries in
      ground (
        arith,
        unprocessed_tx_signatures_bucket_lem b t s tail r,
        load_tx_queue_bounds_lem b t s tail r,
        here,
        tx_point-encode_tx_point p fits,
        r.spans,
        ap length front,
        other,
      )

  finalize_cases :
      (signature : Bytes) (t : Tx) (s : TxLog) (tail : ℕ) (l : List TxPoint)
      → Represents b t s tail
      → s.queue ≡ l
      → (t' : Tx) × Settles b t t'
          (finalize_outcome signature l)
          (finalize_processed_transaction b signature t)
        × Represents b t' (pop_front signature s l) tail
  unfolding finalize_outcome pop_front
  finalize_cases signature t s tail [] r front =
      (t, kept (finalize_empty signature t s tail r front), r)
  finalize_cases signature t s tail (p ∷ q) r front =
      elim (Bool-cases (bytes_eq p.tx_signature signature)) [
        | inl match ↦ rw match (finalize_front p q signature t s tail r front match)
        | inr other ↦ rw other (t, kept (finalize_other p q signature t s tail r front other), r)
      ]

  pub finalize_processed_transaction-Settles :
      (signature : Bytes) (t : Tx) (s : TxLog) (tail : ℕ)
      → Represents b t s tail
      → (t' : Tx) × Settles b t t'
          (finalize_outcome signature s.queue)
          (finalize_processed_transaction b signature t)
        × Represents b t' (spec (finalizes signature) s) tail
  unfolding spec
  finalize_processed_transaction-Settles signature t s tail r =
      finalize_cases signature t s tail s.queue r refl

module _ (b : Bolt) (laws : BoltLaws b) (durable : (t : b.Tx) → b.commits t ≡ true) where
  open b use {Tx}

  -- On a database that represents a log and whose commits succeed, `FinalizeProcessedTransaction`
  -- takes the entry at the front of the queue, if it has the given signature, and makes it the last processed one. On an
  -- empty queue or another entry at the front it returns the error for that, and the database
  -- represents the same log.
  pub finalize_processed_transaction-Represents :
      (signature : Bytes) (t : Tx) (s : TxLog) (tail : ℕ)
      → Represents b t s tail
      → (t' : Tx) × (finalize_processed_transaction b signature t
          ≡ (finalize_outcome signature s.queue, t'))
        × Represents b t' (spec (finalizes signature) s) tail
  finalize_processed_transaction-Represents signature t s tail r =
      let (t', e, r') = finalize_processed_transaction-Settles b laws signature t s tail r in
      (t', Settles-committed b t t' (finalize_outcome signature s.queue) _ (durable t') e, r')
