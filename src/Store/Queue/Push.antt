-- ===== src/Store/Queue/Push.antt =====
-- `PushUnprocessedTransactions` against its specification.
use solana_infrastructure.Base.{
  ℕ, suc, ◌+◌, ◌<◌, ◌≤◌, ◌≡◌, ◌≢◌, refl, ap, ◌∙◌, true, false, List, [], ◌∷◌, ◌++◌, append-nil,
  some, ok, length, length-append, All, length-keep-le, arith,
}
use native.Mathlib.Nat.{add-zero}
use solana_infrastructure.Base.Bytes.{
  Bytes, u64_mod, bytes_eq, encode_uint64, length-encode_uint64, decode-encode_uint64,
}
use solana_infrastructure.Store.Bolt.{Bolt, BoltLaws}
use solana_infrastructure.Store.Data.{
  StoreError, TxPoint, IsTxPoint, encode_tx_point, length-encode_tx_point, head_key, tail_key,
  last_processed_key, last_queried_key,
}
use solana_infrastructure.Store.Queue.{
  queue_bucket, decoded_or, tx_point_or_zero, push_loop, push_body, push_non_empty,
  push_unprocessed_transactions, non_empty, store_tx_queue_tail,
}
use solana_infrastructure.Store.Queue.Settled.{Settles, kept, finish-Settles, Settles-committed}
use solana_infrastructure.Store.Queue.Keys.{bytes_eq-encode_uint64, index_key-ne, key-ne_index}
use solana_infrastructure.Store.Queue.Log.{TxLog, Entries, Represents, pushes, spec}
use solana_infrastructure.Store.Queue.Frame.{
  Changed, Entries-frame, Entries-append, load_tx_queue_bounds_lem,
  unprocessed_tx_signatures_bucket_lem, put-Changed,
}

module _ (b : Bolt) where
  open b use {Tx, has_bucket, get, put}

  -- `t'` is `t` with the entries `ps` written from index `tail` on.
  record Pushed (tail : ℕ) (ps : List TxPoint) (t t' : Tx) : Type 0 where
    buckets : has_bucket queue_bucket t' ≡ has_bucket queue_bucket t
    below :
        (j : ℕ)
        → j < tail
        → get queue_bucket (encode_uint64 j) t' ≡ get queue_bucket (encode_uint64 j) t
    named : (key : Bytes) → length key ≢ 8 → get queue_bucket key t' ≡ get queue_bucket key t
    written : Entries b t' tail ps

module _ (b : Bolt) (laws : BoltLaws b) where
  open b use {Tx, has_bucket, get, put}

  put_entry :
      (i : ℕ) (p : TxPoint) (t : Tx)
      → has_bucket queue_bucket t ≡ true
      → IsTxPoint p
      → (t' : Tx) × (put queue_bucket (encode_uint64 i) (encode_tx_point p) t ≡ some t')
        × Changed b (encode_uint64 i) (some (encode_tx_point p)) t t'
  put_entry i p t has fits =
      put-Changed b laws (encode_uint64 i) (encode_tx_point p) t has
        (omega (arith, length-encode_uint64 i)) (omega (arith, length-encode_uint64 i))
        (omega (arith, length-encode_tx_point p fits))

  push_loop-Pushed :
      (ps : List TxPoint) (tail : ℕ) (t : Tx)
      → has_bucket queue_bucket t ≡ true
      → All IsTxPoint ps
      → tail + length ps < u64_mod
      → (t' : Tx) × (push_loop b ps tail t ≡ (ok (tail + length ps), t')) × Pushed b tail ps t t'
  unfolding push_loop
  push_loop-Pushed [] tail t has fits small = (
    t,
    ground arith,
    record { buckets = refl; below = λ j lt. refl; named = λ key ne. refl; written = tt },
  )
  push_loop-Pushed (p ∷ ps) tail t has (fit, fits) small =
      let (t1, e, c) = put_entry tail p t has fit in
      let (t2, r, k) = push_loop-Pushed ps (suc tail) t1 (c.buckets ∙ has) fits (omega arith) in
      (
        t2,
        ground (arith, e, r),
        record {
          buckets = k.buckets ∙ c.buckets;
          below = λ j lt.
              k.below j (omega arith)
              ∙ c.elsewhere (encode_uint64 j) (ground (arith, bytes_eq-encode_uint64 j tail));
          named = λ key ne. k.named key ne ∙ c.elsewhere key (key-ne_index tail key ne);
          written = (k.below tail (omega arith) ∙ c.at_key, fit, k.written);
        },
      )

-- A representation over a database that reads the same, with more entries or other markers.
module _ (b : Bolt) (t t' : b.Tx) (s : TxLog) (tail : ℕ) (r : Represents b t s tail) where
  open b use {Tx, has_bucket, get, put, commits}

  appended :
      (ps : List TxPoint)
      → tail + length ps < u64_mod
      → has_bucket queue_bucket t' ≡ has_bucket queue_bucket t
      → ((j : ℕ)
          → j < tail
          → get queue_bucket (encode_uint64 j) t' ≡ get queue_bucket (encode_uint64 j) t)
      → ((key : Bytes)
          → length key ≢ 8
          → bytes_eq key tail_key ≡ false
          → get queue_bucket key t' ≡ get queue_bucket key t)
      → get queue_bucket tail_key t' ≡ some (encode_uint64 (tail + length ps))
      → Entries b t' tail ps
      → Represents b t' (record s { queue = s.queue ++ ps }) (tail + length ps)
  unfolding bytes_eq
  appended ps small buckets below named tail_now written = record {
    head = r.head;
    bucket = buckets ∙ r.bucket;
    head_stored = ap (decoded_or 0) (named head_key (omega arith) refl) ∙ r.head_stored;
    tail_stored =
        ap (decoded_or 0) tail_now
        ∙ rw append-nil at (decode-encode_uint64 {E = StoreError} (tail + length ps) [] small);
    spans = omega (arith, r.spans, length-append s.queue ps);
    tail_fits = small;
    entries =
        Entries-append b t' r.head tail s.queue ps r.spans
          (Entries-frame b t t' r.head s.queue (λ j lo hi. below j (omega (arith, r.spans)))
            r.entries)
          written;
    processed_stored =
        ap tx_point_or_zero (named last_processed_key (omega arith) refl) ∙ r.processed_stored;
    queried_stored =
        ap tx_point_or_zero (named last_queried_key (omega arith) refl) ∙ r.queried_stored;
  }

All-non_empty : (ps : List TxPoint) → All IsTxPoint ps → All IsTxPoint (non_empty ps)
unfolding non_empty
All-non_empty [] h = tt
All-non_empty (p ∷ ps) (h, hs) = ground (arith, h, All-non_empty ps hs)

pub length-non_empty : (ps : List TxPoint) → length (non_empty ps) ≤ length ps
unfolding non_empty
length-non_empty ps = length-keep-le _ ps

module _ (b : Bolt) (laws : BoltLaws b) where
  open b use {Tx, has_bucket, get, put, commits}

  push_body_runs :
      (ps : List TxPoint) (t t1 t2 : Tx) (s : TxLog) (tail : ℕ)
      → Represents b t s tail
      → push_loop b ps tail t ≡ (ok (tail + length ps), t1)
      → put queue_bucket tail_key (encode_uint64 (tail + length ps)) t1 ≡ some t2
      → push_body b ps t ≡ (ok tt, t2)
  unfolding push_body store_tx_queue_tail
  push_body_runs ps t t1 t2 s tail r run e = ground (
    arith,
    unprocessed_tx_signatures_bucket_lem b t s tail r,
    load_tx_queue_bounds_lem b t s tail r,
    run,
    e,
  )

  push_non_empty-Settles :
      (ps : List TxPoint) (t : Tx) (s : TxLog) (tail : ℕ)
      → Represents b t s tail
      → All IsTxPoint ps
      → tail + length ps < u64_mod
      → (t' : Tx) × Settles b t t' (ok tt) (push_non_empty b ps t)
        × Represents b t' (record s { queue = s.queue ++ ps }) (tail + length ps)
  unfolding push_non_empty
  push_non_empty-Settles [] t s tail r fits small = (t, kept refl, rw (append-nil, add-zero) r)
  push_non_empty-Settles (p ∷ ps) t s tail r fits small =
      let (t1, run, k) = push_loop-Pushed b laws (p ∷ ps) tail t r.bucket fits small in
      let now = tail + length (p ∷ ps) in
      let (t2, e, c) =
        put-Changed b laws tail_key (encode_uint64 now) t1 (k.buckets ∙ r.bucket) (omega arith)
          (omega arith) (omega (arith, length-encode_uint64 now)) in
      (
        t2,
        finish-Settles b t t2 _ (push_body_runs (p ∷ ps) t t1 t2 s tail r run e),
        appended b t t2 s tail r (p ∷ ps) small (c.buckets ∙ k.buckets)
            (λ j lt. c.elsewhere _ (index_key-ne j tail_key (omega arith)) ∙ k.below j lt)
            (λ key len ne. c.elsewhere key ne ∙ k.named key len) c.at_key
            (Entries-frame b t1 t2 tail (p ∷ ps)
              (λ j lo hi. c.elsewhere _ (index_key-ne j tail_key (omega arith))) k.written),
      )

  -- Pushes of a list with its commit kept or refused.
  pub push_unprocessed_transactions-Settles :
      (ps : List TxPoint) (t : Tx) (s : TxLog) (tail : ℕ)
      → Represents b t s tail
      → All IsTxPoint ps
      → tail + length ps < u64_mod
      → (t' : Tx) × Settles b t t' (ok tt) (push_unprocessed_transactions b ps t)
        × Represents b t' (spec (pushes ps) s) (tail + length (non_empty ps))
  unfolding push_unprocessed_transactions spec
  push_unprocessed_transactions-Settles ps t s tail r fits small =
      push_non_empty-Settles (non_empty ps) t s tail r (All-non_empty ps fits)
        (omega (arith, length-non_empty ps))

module _ (b : Bolt) (laws : BoltLaws b) (durable : (t : b.Tx) → b.commits t ≡ true) where
  open b use {Tx}

  -- On a database that represents a log and whose commits succeed, `PushUnprocessedTransactions`
  -- succeeds, and the database then represents the log with the entries of a non-zero signature appended to its queue in the
  -- order given, as long as the index of the tail does not reach 2 ^ 64.
  pub push_unprocessed_transactions-Represents :
      (ps : List TxPoint) (t : Tx) (s : TxLog) (tail : ℕ)
      → Represents b t s tail
      → All IsTxPoint ps
      → tail + length ps < u64_mod
      → (t' : Tx) × (push_unprocessed_transactions b ps t ≡ (ok tt, t'))
        × Represents b t' (spec (pushes ps) s) (tail + length (non_empty ps))
  push_unprocessed_transactions-Represents ps t s tail r fits small =
      let (t', e, r') = push_unprocessed_transactions-Settles b laws ps t s tail r fits small in
      (t', Settles-committed b t t' (ok tt) _ (durable t') e, r')
