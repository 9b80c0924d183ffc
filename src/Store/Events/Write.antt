-- ===== src/Store/Events/Write.antt =====
-- `StoreEvent` against the log of records.
use solana_infrastructure.Base.{
  ℕ, suc, ◌+◌, ◌*◌, ◌<◌, ◌≤◌, ◌≡◌, refl, ap, ◌∙◌, true, List, [], ◌∷◌, ◌++◌, append-nil, some, ok,
  length, length-append, length-keep-le, ◌==◌, if◌then◌else◌, arith,
}
use solana_infrastructure.Base.Bytes.{
  Bytes, u64_mod, encode_uint64, length-encode_uint64, decode-encode_uint64, bytes_eq_refl,
}
use solana_infrastructure.Store.Bolt.{Bolt, BoltLaws, BucketName, max_value_size, same_key}
use solana_infrastructure.Store.Codec.{Codec, CodecLaws, EventRecord}
use solana_infrastructure.Store.Data.{StoreError, counter_key}
use solana_infrastructure.Store.Monad.{nil_tx}
use solana_infrastructure.Store.Queue.Keys.{bytes_eq-encode_uint64}
use solana_infrastructure.Store.Events.{
  Event, event_record, bytes_or_nil, get_next_event_id, append_event_id_for_block_number,
  store_event,
}
use solana_infrastructure.Store.Events.Order.{insert_entry-rows}
use solana_infrastructure.Store.Events.Log.{
  of_block, of_block-append, id_bytes, id_bytes-append, length-id_bytes, Rows, Records,
}

module _ (b : Bolt) (c : Codec) where
  -- The event can be written as `v` under the id `id`.
  pub record CanWrite (e : Event c.EventData) (id : ℕ) (m : c.DataMap) (v : Bytes) : Type 0 where
    pub converts : c.data_map e.event_data ≡ some m
    pub marshalled : c.marshal_record (event_record c id e m) ≡ some v
    pub text_fits : length v ≤ max_value_size
    pub id_fits : suc id < u64_mod
    pub block_fits : e.block_number < u64_mod
    pub index_fits : 8 * id ≤ max_value_size

module _ (b : Bolt) (c : Codec) (laws : BoltLaws b) (texts : CodecLaws c)
    (durable : (t : b.Tx) → b.commits t ≡ true) where
  open b use {Tx, has_bucket, get, put, commits, entries}

  -- The value of a block's index after the event of the given id is added.
  abbrev index_value : Tx → ℕ → ℕ → Bytes
  index_value t n id =
      bytes_or_nil (get BucketName.event_ids_by_block_number (encode_uint64 n) t)
      ++ encode_uint64 id

  store_event_runs :
      (e : Event c.EventData) (t t1 t2 t3 : Tx) (rs : List (EventRecord c.DataMap)) (m : c.DataMap)
      (v : Bytes)
      → Records b c t rs
      → CanWrite b c e (suc (length rs)) m v
      → put BucketName.event_id_counter counter_key (encode_uint64 (suc (length rs))) t ≡ some t1
      → put BucketName.unprocessed_events (encode_uint64 (suc (length rs))) v t1 ≡ some t2
      → put BucketName.event_ids_by_block_number
          (encode_uint64 e.block_number)
          (index_value t2 e.block_number (suc (length rs)))
          t2
        ≡ some t3
      → store_event b c nil_tx e t ≡ (ok tt, record { db = t3; tx = nil_tx })
  unfolding store_event get_next_event_id append_event_id_for_block_number
  store_event_runs e t t1 t2 t3 rs m v r can e1 e2 e3 = ground (
    arith,
    r.counter_there,
    r.counter,
    r.events_there,
    r.index_there,
    laws.has_bucket-put _ BucketName.unprocessed_events _ _ t t1 e1,
    laws.has_bucket-put _ BucketName.event_ids_by_block_number _ _ t t1 e1,
    laws.has_bucket-put _ BucketName.event_ids_by_block_number _ _ t1 t2 e2,
    can.converts,
    can.marshalled,
    e1,
    e2,
    e3,
    durable t3,
  )

  Rows-append :
      (t t' : Tx) (i k : ℕ) (rs : List (EventRecord c.DataMap)) (vs : List Bytes)
      (r : EventRecord c.DataMap) (v : Bytes)
      → Rows b c t i rs vs
      → k ≡ i + length rs
      → ((j : ℕ)
          → j < k
          → get BucketName.unprocessed_events (encode_uint64 j) t'
            ≡ get BucketName.unprocessed_events (encode_uint64 j) t)
      → get BucketName.unprocessed_events (encode_uint64 k) t' ≡ some v
      → c.unmarshal_record v ≡ some r
      → r.id ≡ k
      → Rows b c t' i (rs ++ r ∷ []) (vs ++ v ∷ [])
  Rows-append t t' i k [] [] r v h e same new reads id =
      let at_end : k ≡ i = omega arith in (rw at_end at new, reads, id ∙ at_end, tt)
  Rows-append t t' i k [] (w ∷ vs) r v h e same new reads id = absurd h
  Rows-append t t' i k (q ∷ rs) [] r v h e same new reads id = absurd h
  Rows-append t t' i k (q ∷ rs) (w ∷ vs) r v (here, was, was_id, rest) e same new reads id = (
    same i (omega arith) ∙ here,
    was,
    was_id,
    Rows-append t t' (suc i) k rs vs r v rest (omega arith) same new reads id,
  )

  length-Rows :
      (t : Tx) (i : ℕ) (rs : List (EventRecord c.DataMap)) (vs : List Bytes)
      → Rows b c t i rs vs
      → length vs ≡ length rs
  length-Rows t i [] [] h = refl
  length-Rows t i [] (v ∷ vs) h = absurd h
  length-Rows t i (r ∷ rs) [] h = absurd h
  length-Rows t i (r ∷ rs) (v ∷ vs) (here, was, was_id, rest) =
      ap suc (length-Rows t (suc i) rs vs rest)

  -- The index entry of every block number after the three writes.
  index_after :
      (e : Event c.EventData) (t t1 t2 t3 : Tx) (rs : List (EventRecord c.DataMap))
      (r : EventRecord c.DataMap) (v : Bytes)
      → Records b c t rs
      → e.block_number < u64_mod
      → r.block_number ≡ e.block_number
      → put BucketName.event_id_counter counter_key (encode_uint64 r.id) t ≡ some t1
      → put BucketName.unprocessed_events (encode_uint64 r.id) v t1 ≡ some t2
      → put BucketName.event_ids_by_block_number
          (encode_uint64 e.block_number)
          (index_value t2 e.block_number r.id)
          t2
        ≡ some t3
      → (n : ℕ) → n < u64_mod
      → bytes_or_nil (get BucketName.event_ids_by_block_number (encode_uint64 n) t3)
        ≡ id_bytes (of_block n (rs ++ r ∷ []))
  index_after e t t1 t2 t3 rs r v was fits same e1 e2 e3 n small =
      let others =
        laws.get-put _ BucketName.event_ids_by_block_number _ _ (encode_uint64 n) t2 t3 e3 in
      let before =
        laws.get-put _ BucketName.event_ids_by_block_number _ _ (encode_uint64 n) t1 t2 e2
        ∙ laws.get-put _ BucketName.event_ids_by_block_number _ _ (encode_uint64 n) t t1 e1 in
      let split =
        ap id_bytes (of_block-append n rs r)
        ∙ id_bytes-append (of_block n rs) (if r.block_number == n then r ∷ [] else []) in
      ground (
        arith,
        others,
        before,
        split,
        was.index n small,
        bytes_eq-encode_uint64 n e.block_number small fits,
        append-nil (encode_uint64 r.id),
        append-nil (id_bytes (of_block n rs)),
      )

  index_value_fits :
      (e : Event c.EventData) (t t1 t2 : Tx) (rs : List (EventRecord c.DataMap)) (id : ℕ)
      (v : Bytes)
      → Records b c t rs
      → e.block_number < u64_mod
      → 8 * suc (length rs) ≤ max_value_size
      → put BucketName.event_id_counter counter_key (encode_uint64 id) t ≡ some t1
      → put BucketName.unprocessed_events (encode_uint64 id) v t1 ≡ some t2
      → length (index_value t2 e.block_number id) ≤ max_value_size
  index_value_fits e t t1 t2 rs id v was fits room e1 e2 =
      let key = encode_uint64 e.block_number in
      let before =
        laws.get-put _ BucketName.event_ids_by_block_number _ _ key t1 t2 e2
        ∙ laws.get-put _ BucketName.event_ids_by_block_number _ _ key t t1 e1 in
      let bytes = ap bytes_or_nil before ∙ was.index e.block_number fits in
      omega (
        arith,
        ap length bytes,
        length-append (bytes_or_nil (get BucketName.event_ids_by_block_number key t2))
            (encode_uint64 id),
        length-encode_uint64 id,
        length-id_bytes (of_block e.block_number rs),
        length-keep-le (λ (r : EventRecord c.DataMap). r.block_number == e.block_number) rs,
      )

  Records-after :
      (e : Event c.EventData) (t t1 t2 t3 : Tx) (rs : List (EventRecord c.DataMap)) (m : c.DataMap)
      (v : Bytes)
      → Records b c t rs
      → CanWrite b c e (suc (length rs)) m v
      → put BucketName.event_id_counter counter_key (encode_uint64 (suc (length rs))) t ≡ some t1
      → put BucketName.unprocessed_events (encode_uint64 (suc (length rs))) v t1 ≡ some t2
      → put BucketName.event_ids_by_block_number
          (encode_uint64 e.block_number)
          (index_value t2 e.block_number (suc (length rs)))
          t2
        ≡ some t3
      → Records b c t3 (rs ++ event_record c (suc (length rs)) e m ∷ [])
  unfolding event_record
  Records-after e t t1 t2 t3 rs m v r can e1 e2 e3 = record {
    values = r.values ++ v ∷ [];
    counter_there = has BucketName.event_id_counter ∙ r.counter_there;
    events_there = has BucketName.unprocessed_events ∙ r.events_there;
    index_there = has BucketName.event_ids_by_block_number ∙ r.index_there;
    counter = ground (
      arith,
      get3 BucketName.event_id_counter counter_key,
      get2 BucketName.event_id_counter counter_key,
      get1 BucketName.event_id_counter counter_key,
      bytes_eq_refl counter_key,
      decode-encode_uint64 {E = StoreError} id [] r.fits,
      append-nil (encode_uint64 id),
      length-append rs (event_record c id e m ∷ []),
      can.id_fits,
    );
    fits = omega (arith, length-append rs (event_record c id e m ∷ []), can.id_fits);
    stored =
        Rows-append t t3 1 id rs r.values _ v r.stored (omega arith)
          (λ j lt. ground (
            arith,
            get3 BucketName.unprocessed_events (encode_uint64 j),
            get2 BucketName.unprocessed_events (encode_uint64 j),
            get1 BucketName.unprocessed_events (encode_uint64 j),
            bytes_eq-encode_uint64 j id,
            r.fits,
          ))
          (ground (
            arith,
            get3 BucketName.unprocessed_events (encode_uint64 id),
            get2 BucketName.unprocessed_events (encode_uint64 id),
            bytes_eq_refl (encode_uint64 id),
          ))
          (texts.record_roundtrip _ v can.marshalled) refl;
    listed = ground (
      arith,
      laws.entries-put _ BucketName.unprocessed_events _ _ t2 t3 e3,
      laws.entries-put _ BucketName.unprocessed_events _ _ t1 t2 e2,
      laws.entries-put _ BucketName.unprocessed_events _ _ t t1 e1,
      r.listed,
      insert_entry-rows 1 id v r.values (omega (arith, length-Rows t 1 rs r.values r.stored))
          r.fits,
    );
    none_processed = ground (
      arith,
      laws.entries-put _ BucketName.processed_events _ _ t2 t3 e3,
      laws.entries-put _ BucketName.processed_events _ _ t1 t2 e2,
      laws.entries-put _ BucketName.processed_events _ _ t t1 e1,
      r.none_processed,
    );
    index = index_after e t t1 t2 t3 rs _ v r can.block_fits refl e1 e2 e3;
  }
    where
      id : ℕ
      id = suc (length rs)

      has : (n : BucketName) → has_bucket n t3 ≡ has_bucket n t
      has n =
          laws.has_bucket-put _ n _ _ t2 t3 e3
          ∙ laws.has_bucket-put _ n _ _ t1 t2 e2
          ∙ laws.has_bucket-put _ n _ _ t t1 e1

      get1 :
          (n : BucketName) (k : Bytes)
          → get n k t1 ≡ (
              if same_key n k BucketName.event_id_counter counter_key
              then some (encode_uint64 id)
              else get n k t)
      get1 n k = laws.get-put _ n _ _ k t t1 e1

      get2 :
          (n : BucketName) (k : Bytes)
          → get n k t2 ≡ (
              if same_key n k BucketName.unprocessed_events (encode_uint64 id)
              then some v
              else get n k t1)
      get2 n k = laws.get-put _ n _ _ k t1 t2 e2

      get3 :
          (n : BucketName) (k : Bytes)
          → get n k t3 ≡ (
              if same_key n k BucketName.event_ids_by_block_number (encode_uint64 e.block_number)
              then some (index_value t2 e.block_number id)
              else get n k t2)
      get3 n k = laws.get-put _ n _ _ k t2 t3 e3

  -- On a database that represents a log of records, if the commit succeeds, `StoreEvent` succeeds
  -- too, and the database then
  -- represents the log with the event's record at the end, under the next id.
  pub store_event-Records :
      (e : Event c.EventData) (t : Tx) (rs : List (EventRecord c.DataMap)) (m : c.DataMap)
      (v : Bytes)
      → Records b c t rs
      → CanWrite b c e (suc (length rs)) m v
      → (t' : Tx) × (store_event b c nil_tx e t ≡ (ok tt, record { db = t'; tx = nil_tx }))
        × Records b c t' (rs ++ event_record c (suc (length rs)) e m ∷ [])
  store_event-Records e t rs m v r can =
      let id = suc (length rs) in
      let (t1, e1) =
        laws.put_succeeds BucketName.event_id_counter counter_key (encode_uint64 id) t
          r.counter_there (omega arith) (omega arith) (omega (arith, length-encode_uint64 id)) in
      let there1 =
        laws.has_bucket-put _ BucketName.unprocessed_events _ _ t t1 e1 ∙ r.events_there in
      let (t2, e2) =
        laws.put_succeeds BucketName.unprocessed_events (encode_uint64 id) v t1 there1
          (omega (arith, length-encode_uint64 id)) (omega (arith, length-encode_uint64 id))
          can.text_fits in
      let there2 =
        laws.has_bucket-put _ BucketName.event_ids_by_block_number _ _ t1 t2 e2
        ∙ laws.has_bucket-put _ BucketName.event_ids_by_block_number _ _ t t1 e1
        ∙ r.index_there in
      let (t3, e3) =
        laws.put_succeeds BucketName.event_ids_by_block_number (encode_uint64 e.block_number)
          (index_value t2 e.block_number id) t2 there2
          (omega (arith, length-encode_uint64 e.block_number))
          (omega (arith, length-encode_uint64 e.block_number))
          (index_value_fits e t t1 t2 rs id v r can.block_fits can.index_fits e1 e2) in
      (
        t3,
        store_event_runs e t t1 t2 t3 rs m v r can e1 e2 e3,
        Records-after e t t1 t2 t3 rs m v r can e1 e2 e3,
      )
