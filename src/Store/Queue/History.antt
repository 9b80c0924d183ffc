-- ===== src/Store/Queue/History.antt =====
-- The readers of the queue, the two markers, and any history of calls against the specification.
use solana_infrastructure.Base.{
  ℕ, suc, ◌+◌, ◌-◌, ◌<◌, ◌≤◌, ◌≡◌, ◌≢◌, refl, sym, ap, ◌∙◌, subst, true, false, List, [], ◌∷◌,
  Option, Result, ok, err, length, All, arith,
}
use solana_infrastructure.Base.Bytes.{Bytes, u64_mod, bytes_eq}
use solana_infrastructure.Store.Bolt.{Bolt, BoltLaws}
use solana_infrastructure.Store.Data.{
  StoreError, TxPoint, IsTxPoint, encode_tx_point, length-encode_tx_point, head_key, tail_key,
  last_processed_key, last_queried_key, tx_point-encode_tx_point,
}
use solana_infrastructure.Store.Monad.{Body}
use solana_infrastructure.Store.Queue.{
  queue_bucket, decoded_or, tx_point_or_zero, read_loop, get_all_unprocessed_transactions,
  get_tx_point_by_key, get_last_processed_transaction, get_latest_queried_transaction, non_empty,
  set_last_processed_transaction, set_last_processed_transaction_in_bucket,
  store_latest_queried_transaction, push_unprocessed_transactions, finalize_processed_transaction,
}
use solana_infrastructure.Store.Queue.Settled.{
  Settles, kept, rolled_back, finish-Settles, Settles-committed,
}
use solana_infrastructure.Store.Queue.Keys.{index_key-ne}
use solana_infrastructure.Store.Queue.Log.{
  TxLog, Entries, Represents, Call, pushes, finalizes, sets_last_processed, sets_last_queried, spec,
  outcome,
}
use solana_infrastructure.Store.Queue.Frame.{
  Changed, Entries-frame, put-Changed, load_tx_queue_bounds_lem,
  unprocessed_tx_signatures_bucket_lem,
}
use solana_infrastructure.Store.Queue.Push.{push_unprocessed_transactions-Settles, length-non_empty}
use solana_infrastructure.Store.Queue.Finalize.{finalize_processed_transaction-Settles}

module _ (b : Bolt) where
  open b use {Tx, get}

  read_loop-Entries :
      (q : List TxPoint) (i : ℕ) (t : Tx) → Entries b t i q → read_loop b (length q) i t ≡ ok q
  unfolding read_loop
  read_loop-Entries [] i t e = refl
  read_loop-Entries (p ∷ q) i t (here, fits, rest) =
      ground (arith, here, tx_point-encode_tx_point p fits, read_loop-Entries q (suc i) t rest)

  read_queue :
      (t : Tx) (s : TxLog) (tail : ℕ)
      → Represents b t s tail
      → get_all_unprocessed_transactions b t ≡ (ok s.queue, t)
  unfolding get_all_unprocessed_transactions
  read_queue t s tail r =
      let n : tail - r.head ≡ length s.queue = omega (arith, r.spans) in
      ground (
        arith,
        unprocessed_tx_signatures_bucket_lem b t s tail r,
        load_tx_queue_bounds_lem b t s tail r,
        n,
        r.spans,
        read_loop-Entries s.queue r.head t r.entries,
      )

  -- The three readers return the queue, oldest first, and the two markers of the log that the
  -- database represents, and change nothing.
  pub readers-Represents :
      (t : Tx) (s : TxLog) (tail : ℕ)
      → Represents b t s tail
      → (get_all_unprocessed_transactions b t ≡ (ok s.queue, t))
        × (get_last_processed_transaction b t ≡ (ok s.last_processed, t))
        × (get_latest_queried_transaction b t ≡ (ok s.last_queried, t))
  unfolding get_last_processed_transaction get_latest_queried_transaction get_tx_point_by_key
  readers-Represents t s tail r = (
    read_queue t s tail r,
    ground (arith, unprocessed_tx_signatures_bucket_lem b t s tail r, r.processed_stored),
    ground (arith, unprocessed_tx_signatures_bucket_lem b t s tail r, r.queried_stored),
  )

  -- A change of a key that is none of the queue's.
  framed :
      (key : Bytes) (v : Option Bytes) (t t' : Tx) (s s' : TxLog) (tail : ℕ)
      → Represents b t s tail
      → Changed b key v t t'
      → length key ≢ 8
      → bytes_eq head_key key ≡ false
      → bytes_eq tail_key key ≡ false
      → s'.queue ≡ s.queue
      → tx_point_or_zero (get queue_bucket last_processed_key t') ≡ ok s'.last_processed
      → tx_point_or_zero (get queue_bucket last_queried_key t') ≡ ok s'.last_queried
      → Represents b t' s' tail
  framed key v t t' s s' tail r c len h1 h2 same lp lq = record {
    head = r.head;
    bucket = c.buckets ∙ r.bucket;
    head_stored = ap (decoded_or 0) (c.elsewhere head_key h1) ∙ r.head_stored;
    tail_stored = ap (decoded_or 0) (c.elsewhere tail_key h2) ∙ r.tail_stored;
    spans = r.spans ∙ ap (λ q. r.head + length q) (sym same);
    tail_fits = r.tail_fits;
    entries = subst (Entries b t' r.head) (sym same) (
        Entries-frame b t t' r.head s.queue (λ j lo hi. c.elsewhere _ (index_key-ne j key len))
          r.entries);
    processed_stored = lp;
    queried_stored = lq;
  }

module _ (b : Bolt) (laws : BoltLaws b) where
  open b use {Tx, has_bucket, get, put, commits}

  -- The two markers are overwritten, and nothing else of the log changes, unless the
  -- commit is refused.
  pub set_last_processed_transaction-Settles :
      (p : TxPoint) (t : Tx) (s : TxLog) (tail : ℕ)
      → Represents b t s tail
      → IsTxPoint p
      → (t' : Tx) × Settles b t t' (ok tt) (set_last_processed_transaction b p t)
        × Represents b t' (spec (sets_last_processed p) s) tail
  unfolding set_last_processed_transaction set_last_processed_transaction_in_bucket spec bytes_eq
  set_last_processed_transaction-Settles p t s tail r fits =
      let (t', e, c) =
        put-Changed b laws last_processed_key (encode_tx_point p) t r.bucket (omega arith)
          (omega arith) (omega (arith, length-encode_tx_point p fits)) in
      (
        t',
        finish-Settles b t t' _
            (ground (arith, unprocessed_tx_signatures_bucket_lem b t s tail r, e)),
        framed b last_processed_key _ t t' s _ tail r c (omega arith) refl refl refl
            (ap tx_point_or_zero c.at_key ∙ tx_point-encode_tx_point p fits)
            (ap tx_point_or_zero (c.elsewhere last_queried_key refl) ∙ r.queried_stored),
      )

  pub store_latest_queried_transaction-Settles :
      (p : TxPoint) (t : Tx) (s : TxLog) (tail : ℕ)
      → Represents b t s tail
      → IsTxPoint p
      → (t' : Tx) × Settles b t t' (ok tt) (store_latest_queried_transaction b p t)
        × Represents b t' (spec (sets_last_queried p) s) tail
  unfolding store_latest_queried_transaction spec bytes_eq
  store_latest_queried_transaction-Settles p t s tail r fits =
      let (t', e, c) =
        put-Changed b laws last_queried_key (encode_tx_point p) t r.bucket (omega arith)
          (omega arith) (omega (arith, length-encode_tx_point p fits)) in
      (
        t',
        finish-Settles b t t' _
            (ground (arith, unprocessed_tx_signatures_bucket_lem b t s tail r, e)),
        framed b last_queried_key _ t t' s _ tail r c (omega arith) refl refl refl
            (ap tx_point_or_zero (c.elsewhere last_processed_key refl) ∙ r.processed_stored)
            (ap tx_point_or_zero c.at_key ∙ tx_point-encode_tx_point p fits),
      )

module _ (b : Bolt) (laws : BoltLaws b) (durable : (t : b.Tx) → b.commits t ≡ true) where
  open b use {Tx}

  pub set_last_processed_transaction-Represents :
      (p : TxPoint) (t : Tx) (s : TxLog) (tail : ℕ)
      → Represents b t s tail
      → IsTxPoint p
      → (t' : Tx) × (set_last_processed_transaction b p t ≡ (ok tt, t'))
        × Represents b t' (spec (sets_last_processed p) s) tail
  set_last_processed_transaction-Represents p t s tail r fits =
      let (t', e, r') = set_last_processed_transaction-Settles b laws p t s tail r fits in
      (t', Settles-committed b t t' (ok tt) _ (durable t') e, r')

  pub store_latest_queried_transaction-Represents :
      (p : TxPoint) (t : Tx) (s : TxLog) (tail : ℕ)
      → Represents b t s tail
      → IsTxPoint p
      → (t' : Tx) × (store_latest_queried_transaction b p t ≡ (ok tt, t'))
        × Represents b t' (spec (sets_last_queried p) s) tail
  store_latest_queried_transaction-Represents p t s tail r fits =
      let (t', e, r') = store_latest_queried_transaction-Settles b laws p t s tail r fits in
      (t', Settles-committed b t t' (ok tt) _ (durable t') e, r')

module _ (b : Bolt) where
  -- One call on the store, and a history of them, with what each caller is told; a caller may go on
  -- after an error.
  unfoldable pub run_call : Call → Body b.Tx (Unit {0})
  run_call (pushes ps) = push_unprocessed_transactions b ps
  run_call (finalizes signature) = finalize_processed_transaction b signature
  run_call (sets_last_processed p) = set_last_processed_transaction b p
  run_call (sets_last_queried p) = store_latest_queried_transaction b p

  unfoldable pub run_calls : List Call → b.Tx → List (Result StoreError (Unit {0})) × b.Tx
  run_calls [] t = ([], t)
  run_calls (c ∷ cs) t =
      let (told, t') = run_call c t in let (rest, t'') = run_calls cs t' in (told ∷ rest, t'')

  -- A history of the log with what its callers are told: a call takes effect as specified, or bolt
  -- refuses to commit the database that represents its effect, and it has none.
  pub data History : List Call → List (Result StoreError (Unit {0})) → TxLog → TxLog → Type 0 where
    over : (s : TxLog) → History [] [] s s
    takes_effect :
        (c : Call) (cs : List Call) (rest : List (Result StoreError (Unit {0}))) (s s' : TxLog)
        → History cs rest (spec c s) s'
        → History (c ∷ cs) (outcome c s ∷ rest) s s'
    refused :
        (c : Call) (cs : List Call) (rest : List (Result StoreError (Unit {0}))) (s s' : TxLog)
        (t : b.Tx) (tail : ℕ)
        → b.commits t ≡ false
        → Represents b t (spec c s) tail
        → History cs rest s s'
        → History (c ∷ cs) (err StoreError.bolt_error ∷ rest) s s'

abbrev pub call_pushes : Call → ℕ
call_pushes (pushes ps) = length ps
call_pushes _ = 0

abbrev pub calls_push : List Call → ℕ
calls_push [] = 0
calls_push (c ∷ cs) = call_pushes c + calls_push cs

-- Every TxPoint that a call hands over has a signature of 64 bytes and a uint64 slot.
abbrev pub IsCall : Call → Type 0
IsCall (pushes ps) = All IsTxPoint ps
IsCall (finalizes signature) = Unit {0}
IsCall (sets_last_processed p) = IsTxPoint p
IsCall (sets_last_queried p) = IsTxPoint p

module _ (b : Bolt) (laws : BoltLaws b) where
  run_call-Settles :
      (c : Call) (t : b.Tx) (s : TxLog) (tail : ℕ)
      → Represents b t s tail
      → IsCall c
      → tail + call_pushes c < u64_mod
      → (t' : b.Tx) × (tail' : ℕ) × (tail' ≤ tail + call_pushes c)
        × Settles b t t' (outcome c s) (run_call b c t)
        × Represents b t' (spec c s) tail'
  unfolding run_call
  run_call-Settles (pushes ps) t s tail r fits small =
      let (t', e, r') = push_unprocessed_transactions-Settles b laws ps t s tail r fits small in
      (t', tail + length (non_empty ps), omega (arith, length-non_empty ps), e, r')
  run_call-Settles (finalizes signature) t s tail r fits small =
      let (t', e, r') = finalize_processed_transaction-Settles b laws signature t s tail r in
      (t', tail, omega arith, e, r')
  run_call-Settles (sets_last_processed p) t s tail r fits small =
      let (t', e, r') = set_last_processed_transaction-Settles b laws p t s tail r fits in
      (t', tail, omega arith, e, r')
  run_call-Settles (sets_last_queried p) t s tail r fits small =
      let (t', e, r') = store_latest_queried_transaction-Settles b laws p t s tail r fits in
      (t', tail, omega arith, e, r')

  -- After any history of calls, which the code may refuse and of which bolt may refuse any commit,
  -- the callers were told and the database represents what a history of the log gives: each call
  -- had the effect and the outcome that its specification says, or bolt refused to commit that
  -- effect, the caller was told bolt's error, and the log stayed as it was. The pushes together
  -- have to keep the index of the tail below 2 ^ 64.
  pub run_calls-Represents :
      (cs : List Call) (t : b.Tx) (s : TxLog) (tail : ℕ)
      → Represents b t s tail
      → All IsCall cs
      → tail + calls_push cs < u64_mod
      → (s' : TxLog) × (tail' : ℕ) × History b cs (run_calls b cs t).0 s s'
        × Represents b (run_calls b cs t).1 s' tail'
  unfolding run_calls
  run_calls-Represents [] t s tail r fits small = (s, tail, over s, r)
  run_calls-Represents (c ∷ cs) t s tail r (fit, fits) small =
      let (t', tail', le, e, r') = run_call-Settles c t s tail r fit (omega arith) in
      elim e [
        | kept same ↦
            let (s', tail'', h, r'') =
              run_calls-Represents cs t' (spec c s) tail' r' fits (omega arith) in
            rw same (s', tail'', takes_effect c cs (run_calls b cs t').0 s s' h, r'')
        | rolled_back unkept same ↦
            let (s', tail'', h, r'') = run_calls-Represents cs t s tail r fits (omega arith) in
            rw same (s', tail'', refused c cs (run_calls b cs t).0 s s' t' tail' unkept r' h, r'')
      ]
