-- ===== src/Store/Events/Read.antt =====
-- What the readers of events return.
use solana_infrastructure.Base.{
  ℕ, suc, ◌+◌, ◌<◌, ◌≤◌, ◌≡◌, refl, sym, ap, Bool, true, List, [], ◌∷◌, ◌++◌, map, append-nil,
  Option, none, some, ok, length, keep, ◌==◌, arith, Bool-cases, inl, inr, All,
}
use solana_infrastructure.Base.Bytes.{Bytes, u64_mod, encode_uint64, decode-encode_uint64}
use solana_infrastructure.Store.Bolt.{Bolt, BucketName}
use solana_infrastructure.Store.Codec.{Codec, EventRecord}
use solana_infrastructure.Store.Data.{StoreError}
use solana_infrastructure.Store.Events.{
  bytes_or_nil, decode_ids_loop, decode_event_ids, events_of_slot, events_of_ids,
  get_events_by_slot, get_events_by_block_number,
}
use solana_infrastructure.Store.Events.Order.{rows}
use solana_infrastructure.Store.Events.Log.{
  of_slot, of_block, id_bytes, length-id_bytes, Rows, Records,
}

decode_ids_loop-step :
    (i : ℕ) (rest : Bytes) (is : List ℕ)
    → i < u64_mod
    → decode_ids_loop rest ≡ ok is
    → decode_ids_loop (encode_uint64 i ++ rest) ≡ ok (i ∷ is)
unfolding decode_ids_loop encode_uint64
decode_ids_loop-step i rest is fits h =
    ground (arith, h, decode-encode_uint64 {E = StoreError} i [] fits)

module _ (b : Bolt) (c : Codec) where
  open b use {Tx, has_bucket, get, entries}

  -- The record can be read back by its id.
  abbrev Found : Tx → EventRecord c.DataMap → Type 0
  Found t r =
      (r.id < u64_mod)
      × ((v : Bytes) × (get BucketName.unprocessed_events (encode_uint64 r.id) t ≡ some v)
          × (c.unmarshal_record v ≡ some r))

  Rows-Found :
      (t : Tx) (i : ℕ) (rs : List (EventRecord c.DataMap)) (vs : List Bytes)
      → Rows b c t i rs vs
      → i + length rs ≤ u64_mod
      → All (Found t) rs
  Rows-Found t i [] [] h fits = tt
  Rows-Found t i [] (v ∷ vs) h fits = tt
  Rows-Found t i (r ∷ rs) [] h fits = absurd h
  Rows-Found t i (r ∷ rs) (v ∷ vs) (here, reads, same, rest) fits =
      ((omega arith, (v, rw same here, reads)), Rows-Found t (suc i) rs vs rest (omega arith))

  All-keep :
      (t : Tx) (p : EventRecord c.DataMap → Bool) (rs : List (EventRecord c.DataMap))
      → All (Found t) rs
      → All (Found t) (keep p rs)
  All-keep t p [] h = tt
  All-keep t p (r ∷ rs) (h, hs) = elim (Bool-cases (p r)) [
    | inl e ↦ rw (e, All) (h, All-keep t p rs hs)
    | inr e ↦ rw (e, All) (All-keep t p rs hs)
  ]

  decode_ids_loop-id_bytes :
      (t : Tx) (qs : List (EventRecord c.DataMap))
      → All (Found t) qs
      → decode_ids_loop (id_bytes qs) ≡ ok (map (λ r. r.id) qs)
  decode_ids_loop-id_bytes t [] h = unfold decode_ids_loop in refl
  decode_ids_loop-id_bytes t (q ∷ qs) (h, hs) =
      decode_ids_loop-step q.id (id_bytes qs) (map (λ r. r.id) qs) h.0
        (decode_ids_loop-id_bytes t qs hs)

  decode_event_ids-id_bytes :
      (t : Tx) (qs : List (EventRecord c.DataMap))
      → All (Found t) qs
      → decode_event_ids (id_bytes qs) ≡ ok (map (λ r. r.id) qs)
  unfolding decode_event_ids
  decode_event_ids-id_bytes t qs h =
      ground (arith, length-id_bytes qs, decode_ids_loop-id_bytes t qs h)

  events_of_ids-Found :
      (t : Tx) (qs : List (EventRecord c.DataMap))
      → has_bucket BucketName.unprocessed_events t ≡ true
      → All (Found t) qs
      → events_of_ids b c (map (λ r. r.id) qs) t ≡ ok qs
  unfolding events_of_ids
  events_of_ids-Found t [] has h = refl
  events_of_ids-Found t (q ∷ qs) has ((small, (v, here, reads)), hs) =
      ground (arith, has, here, reads, events_of_ids-Found t qs has hs)

  events_of_slot-rows :
      (slot : ℕ) (t : Tx) (i : ℕ) (rs : List (EventRecord c.DataMap)) (vs : List Bytes)
      → Rows b c t i rs vs
      → events_of_slot c slot (rows i vs) ≡ ok (of_slot slot rs)
  unfolding events_of_slot
  events_of_slot-rows slot t i [] [] h = refl
  events_of_slot-rows slot t i [] (v ∷ vs) h = absurd h
  events_of_slot-rows slot t i (r ∷ rs) [] h = absurd h
  events_of_slot-rows slot t i (r ∷ rs) (v ∷ vs) (here, reads, same, rest) =
      ground (arith, reads, events_of_slot-rows slot t (suc i) rs vs rest)

  id_bytes_nil : (qs : List (EventRecord c.DataMap)) → id_bytes qs ≡ [] → qs ≡ []
  id_bytes_nil [] h = refl
  id_bytes_nil (q ∷ qs) h = absurd (omega (arith, length-id_bytes (q ∷ qs), ap length h))

  read_slot :
      (slot : ℕ) (t : Tx) (rs : List (EventRecord c.DataMap))
      → Records b c t rs
      → get_events_by_slot b c slot t ≡ (ok (of_slot slot rs), t)
  unfolding get_events_by_slot events_of_slot
  read_slot slot t rs r = ground (
    arith,
    r.events_there,
    r.listed,
    r.none_processed,
    events_of_slot-rows slot t 1 rs r.values r.stored,
    append-nil (of_slot slot rs),
  )

  read_index :
      (n : ℕ) (t : Tx) (rs : List (EventRecord c.DataMap)) (o : Option Bytes)
      → Records b c t rs
      → get BucketName.event_ids_by_block_number (encode_uint64 n) t ≡ o
      → bytes_or_nil o ≡ id_bytes (of_block n rs)
      → get_events_by_block_number b c n t ≡ (ok (of_block n rs), t)
  unfolding get_events_by_block_number
  read_index n t rs none r e h =
      ground (arith, e, r.index_there, id_bytes_nil (of_block n rs) (sym h))
  read_index n t rs (some v) r e h =
      let found =
        All-keep t (λ q. q.block_number == n) rs
          (Rows-Found t 1 rs r.values r.stored (omega (arith, r.fits))) in
      ground (
        arith,
        e,
        h,
        r.index_there,
        decode_event_ids-id_bytes t (of_block n rs) found,
        events_of_ids-Found t (of_block n rs) r.events_there found,
      )

  -- On a database that represents a log of records, `GetEventsBySlot` returns the records of the
  -- slot, and `GetEventsByBlockNumber`, which goes through the index, those of the block, in the
  -- order in which they were stored.
  pub readers-Records :
      (n : ℕ) (t : Tx) (rs : List (EventRecord c.DataMap))
      → Records b c t rs
      → n < u64_mod
      → (get_events_by_slot b c n t ≡ (ok (of_slot n rs), t))
        × (get_events_by_block_number b c n t ≡ (ok (of_block n rs), t))
  readers-Records n t rs r fits = (read_slot n t rs r, read_index n t rs _ r refl (r.index n fits))
