-- ===== src/Store/Open/Fresh.antt =====
-- Opening a new database and one that is there.
use solana_infrastructure.Base.{
  ℕ, ◌≡◌, refl, ap, ◌∙◌, Bool, true, false, ◌||◌, List, [], ◌∷◌, none, ok, arith,
}
use solana_infrastructure.Base.Bytes.{Bytes}
use solana_infrastructure.Store.Bolt.{Bolt, BoltLaws, BucketName, same_bucket}
use solana_infrastructure.Store.Data.{zero_tx_point}
use solana_infrastructure.Store.Open.{all_buckets, create_buckets, new_bolt_storage_handler}
use solana_infrastructure.Store.Queue.{queue_bucket, decoded_or, tx_point_or_zero}
use solana_infrastructure.Store.Queue.Log.{TxLog, Represents}
use solana_infrastructure.Store.Queue.Frame.{Entries-frame}

or_assoc : (x y z : Bool) → (x || (y || z)) ≡ (x || y || z)
or_assoc true y z = refl
or_assoc false y z = refl

abbrev is_created : BucketName → List BucketName → Bool
is_created m [] = false
is_created m (n ∷ ns) = is_created m ns || same_bucket m n

abbrev pub empty_log : TxLog
empty_log = record { queue = []; last_processed = zero_tx_point; last_queried = zero_tx_point }

module _ (b : Bolt) (laws : BoltLaws b) (durable : (t : b.Tx) → b.commits t ≡ true) where
  open b use {Tx, has_bucket, get, entries}

  -- The buckets are there, and every value is what it was.
  record Opened (ns : List BucketName) (t t' : Tx) : Type 0 where
    there : (m : BucketName) → has_bucket m t' ≡ (is_created m ns || has_bucket m t)
    values : (m : BucketName) (k : Bytes) → get m k t' ≡ get m k t
    listing : (m : BucketName) → entries m t' ≡ entries m t

  create_buckets-Opened :
      (ns : List BucketName) (t : Tx)
      → (t' : Tx) × (create_buckets b ns t ≡ (ok tt, t')) × Opened ns t t'
  unfolding create_buckets
  create_buckets-Opened [] t =
      (t, refl, record { there = λ m. refl; values = λ m k. refl; listing = λ m. refl })
  create_buckets-Opened (n ∷ ns) t =
      let (t1, e) = laws.create_succeeds n t in
      let (t2, run, o) = create_buckets-Opened ns t1 in
      (
        t2,
        ground (arith, e, run),
        record {
          there = λ m.
              o.there m
              ∙ ap (◌||◌ (is_created m ns)) (laws.has_bucket-create n m t t1 e)
              ∙ or_assoc (is_created m ns) (same_bucket m n) (has_bucket m t);
          values = λ m k. o.values m k ∙ laws.get-create n m k t t1 e;
          listing = λ m. o.listing m ∙ laws.entries-create n m t t1 e;
        },
      )

  open_runs :
      (t : Tx) → (t' : Tx) × (new_bolt_storage_handler b t ≡ (ok tt, t')) × Opened all_buckets t t'
  unfolding new_bolt_storage_handler
  open_runs t =
      let (t', run, o) = create_buckets-Opened all_buckets t in
      (t', ground (arith, run, durable t'), o)

  -- Opening a database with nothing in the queue's bucket succeeds if the commit does, and it then
  -- represents the log with an empty queue and no marker.
  pub new_bolt_storage_handler-fresh :
      (t : Tx)
      → ((k : Bytes) → get queue_bucket k t ≡ none)
      → (t' : Tx) × (new_bolt_storage_handler b t ≡ (ok tt, t')) × Represents b t' empty_log 0
  new_bolt_storage_handler-fresh t fresh =
      let (t', run, o) = open_runs t in
      (
        t',
        run,
        record {
          head = 0;
          bucket = o.there queue_bucket;
          head_stored = ap (decoded_or 0) (o.values _ _ ∙ fresh _);
          tail_stored = ap (decoded_or 0) (o.values _ _ ∙ fresh _);
          spans = refl;
          tail_fits = omega arith;
          entries = tt;
          processed_stored = ap tx_point_or_zero (o.values _ _ ∙ fresh _);
          queried_stored = ap tx_point_or_zero (o.values _ _ ∙ fresh _);
        },
      )

  -- Opening a database that represents a log of transactions succeeds if the commit does, and it
  -- then represents the same log.
  pub new_bolt_storage_handler-Represents :
      (t : Tx) (s : TxLog) (tail : ℕ)
      → Represents b t s tail
      → (t' : Tx) × (new_bolt_storage_handler b t ≡ (ok tt, t')) × Represents b t' s tail
  new_bolt_storage_handler-Represents t s tail r =
      let (t', run, o) = open_runs t in
      (
        t',
        run,
        record {
          head = r.head;
          bucket = o.there queue_bucket;
          head_stored = ap (decoded_or 0) (o.values _ _) ∙ r.head_stored;
          tail_stored = ap (decoded_or 0) (o.values _ _) ∙ r.tail_stored;
          spans = r.spans;
          tail_fits = r.tail_fits;
          entries = Entries-frame b t t' r.head s.queue (λ j lo hi. o.values _ _) r.entries;
          processed_stored = ap tx_point_or_zero (o.values _ _) ∙ r.processed_stored;
          queried_stored = ap tx_point_or_zero (o.values _ _) ∙ r.queried_stored;
        },
      )
