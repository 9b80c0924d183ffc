-- ===== src/Tracker/Signatures/Queued.antt =====
-- What a query for new transactions leaves in the store.
use solana_infrastructure.Base.{
  ℕ, suc, ◌+◌, ◌<◌, ◌≤◌, ◌≡◌, refl, ap, sym, ◌∙◌, subst, Bool, true, not, ◌&&◌, List, [], ◌∷◌, ◌++◌,
  map, keep, reverse, keep-reverse, keep_same, keep_all, All-reverse, All-keep, length-reverse, ok,
  length, length-keep-le, All, append-nil, append_assoc, Bool-cases, inl, inr, leb, ltb, arith,
  if◌then◌else◌,
}
use solana_infrastructure.Base.Bytes.{u64_mod, bytes_eq}
use solana_infrastructure.Store.Bolt.{Bolt, BoltLaws}
use solana_infrastructure.Store.Codec.{Codec}
use solana_infrastructure.Store.Data.{TxPoint, IsTxPoint, zero_signature}
use solana_infrastructure.Store.Queue.{non_empty}
use solana_infrastructure.Store.Queue.Log.{
  TxLog, Represents, spec, pushes, sets_last_processed, sets_last_queried,
}
use solana_infrastructure.Store.Queue.Push.{push_unprocessed_transactions-Represents}
use solana_infrastructure.Store.Queue.History.{
  set_last_processed_transaction-Represents, store_latest_queried_transaction-Represents,
}
use solana_infrastructure.Tracker.Storage.{bolt_storage}
use solana_infrastructure.Tracker.Signatures.{
  TransactionSignature, SignatureNode, point_of, points_to_queue, last_point, store_new, keep_from,
  oldest_first,
}

-- The signatures that are to be queued: on the first run, those from the starting slot on.
unfoldable pub chosen : ℕ → TxPoint → List TransactionSignature → List TransactionSignature
chosen start last_queried l =
    if bytes_eq last_queried.tx_signature zero_signature then keep_from start l else l

-- The log after new signatures, of which `l`, newest first, are to be queued: they stand at the end
-- of the queue, oldest first, and the newest of them is the last queried one. If there are none,
-- the newest of all is the last processed and the last queried one.
unfoldable pub queued_log : TransactionSignature → List TransactionSignature → TxLog → TxLog
unfolding non_empty
queued_log newest [] s = record s {
  last_processed = point_of newest;
  last_queried = point_of newest;
}
queued_log newest (k ∷ l) s = record s {
  queue = s.queue ++ non_empty (reverse (map point_of (k ∷ l)));
  last_queried = point_of k;
}

map-append_points :
    (xs ys : List TransactionSignature)
    → map point_of (xs ++ ys) ≡ map point_of xs ++ map point_of ys
map-append_points [] ys = refl
map-append_points (x ∷ xs) ys = ap (λ r. point_of x ∷ r) (map-append_points xs ys)

map-reverse : (l : List TransactionSignature) → map point_of (reverse l) ≡ reverse (map point_of l)
map-reverse [] = refl
map-reverse (x ∷ l) =
    map-append_points (reverse l) (x ∷ []) ∙ ap (λ r. r ++ point_of x ∷ []) (map-reverse l)

All-points :
    (l : List TransactionSignature)
    → All (λ s. IsTxPoint (point_of s)) l
    → All IsTxPoint (map point_of l)
All-points [] h = tt
All-points (x ∷ l) (h, hs) = (h, All-points l hs)

oldest_first_lem : (l acc : List TransactionSignature) → oldest_first l acc ≡ reverse l ++ acc
oldest_first_lem [] acc = refl
oldest_first_lem (x ∷ l) acc =
    oldest_first_lem l (x ∷ acc) ∙ sym (append_assoc (reverse l) (x ∷ []) acc)

abbrev test : ℕ → TxPoint → TransactionSignature → Bool
test start last_queried s =
    not (bytes_eq last_queried.tx_signature zero_signature && ltb s.slot start)

-- The test of each signature keeps the chosen ones.
keep-chosen :
    (start : ℕ) (last_queried : TxPoint) (l : List TransactionSignature)
    → keep (test start last_queried) l ≡ chosen start last_queried l
unfolding chosen
keep-chosen start last_queried l =
    elim (Bool-cases (bytes_eq last_queried.tx_signature zero_signature)) [
      | inl first ↦
          keep_same (test start last_queried) (λ s. leb start s.slot) (λ s. ground (arith, first)) l
          ∙ ground (arith, first)
      | inr later ↦
          keep_same (test start last_queried) (λ s. true) (λ s. ground (arith, later)) l
          ∙ keep_all l
          ∙ ground (arith, later)
    ]

points_to_queue_lem :
    (start : ℕ) (last_queried : TxPoint) (l : List TransactionSignature)
    → points_to_queue start last_queried l ≡ reverse (map point_of (chosen start last_queried l))
unfolding points_to_queue
points_to_queue_lem start last_queried l =
    ap (λ r. map point_of (keep (test start last_queried) r))
      (oldest_first_lem l [] ∙ append-nil (reverse l))
    ∙ ap (map point_of)
        (keep-reverse (test start last_queried) l ∙ ap reverse (keep-chosen start last_queried l))
    ∙ map-reverse (chosen start last_queried l)

last_point-append :
    (q : TxPoint) (qs : List TxPoint) (k : TxPoint) → last_point q (qs ++ k ∷ []) ≡ k
last_point-append q [] k = refl
last_point-append q (r ∷ qs) k = last_point-append r qs k

abbrev logged : TxLog → List TxPoint → TxPoint → TxLog
logged s points last = record s { queue = s.queue ++ non_empty points; last_queried = last }

All-last : (xs : List TxPoint) (k : TxPoint) → All IsTxPoint (xs ++ k ∷ []) → IsTxPoint k
All-last [] k (h, hs) = h
All-last (x ∷ xs) k (h, hs) = All-last xs k hs

length-points : (l : List TransactionSignature) → length (map point_of l) ≡ length l
length-points [] = refl
length-points (x ∷ l) = ap suc (length-points l)

All-chosen :
    (start : ℕ) (last_queried : TxPoint) (l : List TransactionSignature)
    → All (λ s. IsTxPoint (point_of s)) l
    → All (λ s. IsTxPoint (point_of s)) (chosen start last_queried l)
All-chosen start last_queried l h =
    subst (λ m. All (λ s. IsTxPoint (point_of s)) m) (keep-chosen start last_queried l)
      (All-keep (λ s. IsTxPoint (point_of s)) (test start last_queried) l h)

length-chosen :
    (start : ℕ) (last_queried : TxPoint) (l : List TransactionSignature)
    → length (chosen start last_queried l) ≤ length l
length-chosen start last_queried l =
    subst (λ m. length m ≤ length l) (keep-chosen start last_queried l)
      (length-keep-le (test start last_queried) l)

module _ {E : Type 0} (b : Bolt) (c : Codec) (laws : BoltLaws b)
    (durable : (t : b.Tx) → b.commits t ≡ true) (node : SignatureNode E) where
  -- Where the points to queue are `p` and `ps`.
  stores_points :
      (start height : ℕ) (last_queried : TxPoint) (newest : TransactionSignature)
      (rest : List TransactionSignature) (p : TxPoint) (ps : List TxPoint) (t : b.Tx) (s : TxLog)
      (tail : ℕ)
      → points_to_queue start last_queried (newest ∷ rest) ≡ p ∷ ps
      → Represents b t s tail
      → All IsTxPoint (p ∷ ps)
      → IsTxPoint (last_point p ps)
      → tail + length (p ∷ ps) < u64_mod
      → (t' : b.Tx) × (store_new (bolt_storage b c) node start last_queried height (newest ∷ rest) t
          ≡ (ok tt, t'))
        × Represents b t'
            (spec (sets_last_queried (last_point p ps)) (spec (pushes (p ∷ ps)) s))
            (tail + length (non_empty (p ∷ ps)))
  unfolding store_new
  stores_points start height last_queried newest rest p ps t s tail queued r fits fit small =
      let (t1, e1, r1) =
        push_unprocessed_transactions-Represents b laws durable (p ∷ ps) t s tail r fits small in
      let (t2, e2, r2) =
        store_latest_queried_transaction-Represents b laws durable (last_point p ps) t1 _ _ r1
          fit in
      (t2, rw (queued, e1, e2) refl, r2)

  -- Where no point is to be queued.
  stores_newest :
      (start height : ℕ) (last_queried : TxPoint) (newest : TransactionSignature)
      (rest : List TransactionSignature) (t : b.Tx) (s : TxLog) (tail : ℕ)
      → points_to_queue start last_queried (newest ∷ rest) ≡ []
      → Represents b t s tail
      → IsTxPoint (point_of newest)
      → (t' : b.Tx) × (store_new (bolt_storage b c) node start last_queried height (newest ∷ rest) t
          ≡ (ok tt, t'))
        × Represents b t'
            (spec
              (sets_last_queried (point_of newest))
              (spec (sets_last_processed (point_of newest)) s))
            tail
  unfolding store_new
  stores_newest start height last_queried newest rest t s tail none_queued r fit =
      let (t1, e1, r1) =
        set_last_processed_transaction-Represents b laws durable (point_of newest) t s tail r fit in
      let (t2, e2, r2) =
        store_latest_queried_transaction-Represents b laws durable (point_of newest) t1 _ _ r1
          fit in
      (t2, rw (none_queued, e1, e2) refl, r2)

  -- The points to queue, as the oldest first and the newest of them last.
  stores_chosen :
      (start height : ℕ) (last_queried : TxPoint) (newest : TransactionSignature)
      (rest : List TransactionSignature) (t : b.Tx) (s : TxLog) (tail : ℕ)
      (k : TransactionSignature) (l : List TransactionSignature) (points : List TxPoint)
      → points_to_queue start last_queried (newest ∷ rest) ≡ points ++ point_of k ∷ []
      → points ≡ reverse (map point_of l)
      → Represents b t s tail
      → All IsTxPoint (points ++ point_of k ∷ [])
      → IsTxPoint (point_of k)
      → tail + length (points ++ point_of k ∷ []) < u64_mod
      → (t' : b.Tx) × (tail' : ℕ) × (store_new
            (bolt_storage b c)
            node
            start
            last_queried
            height
            (newest ∷ rest)
            t
          ≡ (ok tt, t'))
        × Represents b t' (queued_log newest (k ∷ l) s) tail'
  unfolding queued_log spec
  stores_chosen start height last_queried newest rest t s tail k l [] queued e r fits fit small =
      let last = point_of k in
      let now = tail + length (non_empty (last ∷ [])) in
      let (t', run, r') =
        stores_points start height last_queried newest rest last [] t s tail queued r fits fit
          small in
      (t', now, run, subst (λ m. Represents b t' (logged s (m ++ last ∷ []) last) now) e r')
  stores_chosen start height last_queried newest rest t s tail k l (p ∷ ps) queued e r fits fit
        small =
      let last = point_of k in
      let all = ps ++ last ∷ [] in
      let now = tail + length (non_empty (p ∷ all)) in
      let same = last_point-append p ps last in
      let (t', run, r') =
        stores_points start height last_queried newest rest p all t s tail queued r fits
          (subst IsTxPoint (sym same) fit) small in
      (
        t',
        now,
        run,
        subst (λ m. Represents b t' (logged s (m ++ last ∷ []) last) now) e
            (subst (λ q. Represents b t' (logged s (p ∷ all) q) now) same r'),
      )

  by_chosen :
      (start height : ℕ) (last_queried : TxPoint) (newest : TransactionSignature)
      (rest : List TransactionSignature) (t : b.Tx) (s : TxLog) (tail : ℕ)
      (l : List TransactionSignature)
      → chosen start last_queried (newest ∷ rest) ≡ l
      → Represents b t s tail
      → All (λ s. IsTxPoint (point_of s)) (newest ∷ rest)
      → All IsTxPoint (reverse (map point_of l))
      → tail + length (reverse (map point_of l)) < u64_mod
      → (t' : b.Tx) × (tail' : ℕ) × (store_new
            (bolt_storage b c)
            node
            start
            last_queried
            height
            (newest ∷ rest)
            t
          ≡ (ok tt, t'))
        × Represents b t' (queued_log newest l s) tail'
  unfolding queued_log spec
  by_chosen start height last_queried newest rest t s tail [] e r fits all small =
      let queued =
        points_to_queue_lem start last_queried (newest ∷ rest)
        ∙ ap (λ l. reverse (map point_of l)) e in
      let (t', run, r') =
        stores_newest start height last_queried newest rest t s tail queued r fits.0 in
      (t', tail, run, r')
  by_chosen start height last_queried newest rest t s tail (k ∷ l) e r fits all small =
      let queued =
        points_to_queue_lem start last_queried (newest ∷ rest)
        ∙ ap (λ l. reverse (map point_of l)) e in
      stores_chosen start height last_queried newest rest t s tail k l (reverse (map point_of l))
        queued refl r all (All-last (reverse (map point_of l)) (point_of k) all) small

  -- On a store that represents a log, new signatures, newest first, leave the log with the chosen
  -- ones at the end of its queue, oldest first and without those of the zero signature, and with the
  -- newest chosen one as the last queried transaction. If none is chosen, the newest of all is the
  -- last processed and the last queried transaction. On the first run those from the starting slot
  -- on are chosen, later all. Commits have to succeed, and the index of the tail to stay below
  -- 2 ^ 64.
  pub store_new-queues :
      (start height : ℕ) (last_queried : TxPoint) (newest : TransactionSignature)
      (rest : List TransactionSignature) (t : b.Tx) (s : TxLog) (tail : ℕ)
      → Represents b t s tail
      → All (λ s. IsTxPoint (point_of s)) (newest ∷ rest)
      → tail + length (newest ∷ rest) < u64_mod
      → (t' : b.Tx) × (tail' : ℕ) × (store_new
            (bolt_storage b c)
            node
            start
            last_queried
            height
            (newest ∷ rest)
            t
          ≡ (ok tt, t'))
        × Represents b t' (queued_log newest (chosen start last_queried (newest ∷ rest)) s) tail'
  store_new-queues start height last_queried newest rest t s tail r fits small =
      by_chosen start height last_queried newest rest t s tail
        (chosen start last_queried (newest ∷ rest)) refl r fits
        (All-reverse IsTxPoint (map point_of (chosen start last_queried (newest ∷ rest)))
          (All-points _ (All-chosen start last_queried (newest ∷ rest) fits)))
        (omega (
          arith,
          length-reverse (map point_of (chosen start last_queried (newest ∷ rest))),
          length-points (chosen start last_queried (newest ∷ rest)),
          length-chosen start last_queried (newest ∷ rest),
        ))
