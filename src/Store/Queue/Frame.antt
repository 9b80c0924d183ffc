-- ===== src/Store/Queue/Frame.antt =====
-- What one write to the queue's bucket changes, and what it leaves alone.
use solana_infrastructure.Base.{
  ℕ, suc, ◌+◌, ◌<◌, ◌≤◌, ◌≡◌, ◌∙◌, subst, true, false, List, [], ◌∷◌, ◌++◌, Option, none, some, ok,
  length, arith,
}
use solana_infrastructure.Base.Bytes.{Bytes, bytes_eq, bytes_eq_refl, encode_uint64}
use solana_infrastructure.Store.Bolt.{Bolt, BoltLaws, max_key_size, max_value_size}
use solana_infrastructure.Store.Monad.{check}
use solana_infrastructure.Store.Data.{TxPoint}
use solana_infrastructure.Store.Queue.{
  queue_bucket, load_tx_queue_bounds, unprocessed_tx_signatures_bucket,
}
use solana_infrastructure.Store.Queue.Log.{Entries, TxLog, Represents}

module _ (b : Bolt) where
  open b use {Tx, has_bucket, get, put, delete}

  -- `t'` is `t` with the key `k` of the queue's bucket changed to `v`.
  pub record Changed (k : Bytes) (v : Option Bytes) (t t' : Tx) : Type 0 where
    pub buckets : has_bucket queue_bucket t' ≡ has_bucket queue_bucket t
    pub at_key : get queue_bucket k t' ≡ v
    pub elsewhere :
        (j : Bytes) → bytes_eq j k ≡ false → get queue_bucket j t' ≡ get queue_bucket j t

  -- Entries whose keys read the same are the same.
  pub Entries-frame :
      (t t' : Tx) (i : ℕ) (q : List TxPoint)
      → ((j : ℕ)
          → i ≤ j
          → j < i + length q
          → get queue_bucket (encode_uint64 j) t' ≡ get queue_bucket (encode_uint64 j) t)
      → Entries b t i q
      → Entries b t' i q
  Entries-frame t t' i [] same e = tt
  Entries-frame t t' i (p ∷ q) same (here, fits, rest) = (
    same i (omega arith) (omega arith) ∙ here,
    fits,
    Entries-frame t t' (suc i) q (λ j lo hi. same j (omega arith) (omega arith)) rest,
  )

  pub Entries-append :
      (t : Tx) (i m : ℕ) (q ps : List TxPoint)
      → m ≡ i + length q
      → Entries b t i q
      → Entries b t m ps
      → Entries b t i (q ++ ps)
  Entries-append t i m [] ps e here f = subst (λ k. Entries b t k ps) (omega arith) f
  Entries-append t i m (p ∷ q) ps e (here, fits, rest) f =
      (here, fits, Entries-append t (suc i) m q ps (omega arith) rest f)

module _ (b : Bolt) (laws : BoltLaws b) where
  open b use {Tx, has_bucket, get, put, delete}

  pub put-Changed :
      (k v : Bytes) (t : Tx)
      → has_bucket queue_bucket t ≡ true
      → 0 < length k
      → length k ≤ max_key_size
      → length v ≤ max_value_size
      → (t' : Tx) × (put queue_bucket k v t ≡ some t') × Changed b k (some v) t t'
  put-Changed k v t has pos small fits =
      let (t', e) = laws.put_succeeds queue_bucket k v t has pos small fits in
      (
        t',
        e,
        record {
          buckets = laws.has_bucket-put _ _ k v t t' e;
          at_key = rw (bytes_eq_refl k) at (laws.get-put queue_bucket queue_bucket k v k t t' e);
          elsewhere = λ j ne. rw ne at (laws.get-put queue_bucket queue_bucket k v j t t' e);
        },
      )

  pub delete-Changed :
      (k : Bytes) (t : Tx)
      → has_bucket queue_bucket t ≡ true
      → (t' : Tx) × (delete queue_bucket k t ≡ some t') × Changed b k none t t'
  delete-Changed k t has =
      let (t', e) = laws.delete_succeeds queue_bucket k t has in
      (
        t',
        e,
        record {
          buckets = laws.has_bucket-delete _ _ k t t' e;
          at_key = rw (bytes_eq_refl k) at (laws.get-delete queue_bucket queue_bucket k k t t' e);
          elsewhere = λ j ne. rw ne at (laws.get-delete queue_bucket queue_bucket k j t t' e);
        },
      )

module _ (b : Bolt) (t : b.Tx) (s : TxLog) (tail : ℕ) (r : Represents b t s tail) where
  -- The queue's bucket and bounds read as the representation says.
  pub load_tx_queue_bounds_lem :
      load_tx_queue_bounds b t ≡ (ok (record { head = r.head; tail = tail }), t)
  unfolding load_tx_queue_bounds
  load_tx_queue_bounds_lem = ground (arith, r.head_stored, r.tail_stored)

  pub unprocessed_tx_signatures_bucket_lem : unprocessed_tx_signatures_bucket b t ≡ (ok tt, t)
  unfolding unprocessed_tx_signatures_bucket
  unprocessed_tx_signatures_bucket_lem = rw (r.bucket, check)
