-- ===== src/Tracker/Processing/Notified.antt =====
-- What the subscriber is given for the emitted events of a transaction.
use solana_infrastructure.Base.{
  ℕ, suc, ◌≡◌, ◌≢◌, refl, sym, ap, ◌∙◌, subst, Bool, true, false, List, [], ◌∷◌, ◌++◌, append-nil,
  append_assoc, Option, none, some, Result, ok, err, panic,
}
use solana_infrastructure.Base.Bytes.{Bytes}
use solana_infrastructure.Store.Events.{Event}
use solana_infrastructure.Tracker.Action.{Action, after, computed}
use solana_infrastructure.Tracker.ChainHead.{Node, fetch_block}
use solana_infrastructure.Tracker.Cpi.{Instruction, EmittedEvent}
use solana_infrastructure.Tracker.Storage.{StorageHandler}
use solana_infrastructure.Tracker.Processing.{
  Setting, Progress, ProcessError, ParseError, call, height_of, delivered_if, notify, handle_event,
  with_hash, handle_parsed, handle_events, parse_event, inner_action_hash, finalize,
}

pub err-ne_ok :
    {A : Type 0} (x : ProcessError) (a : A) → Path (Result ProcessError A) (err x) (ok a) → ⊥
err-ne_ok x a e = cc

pub panic-ne_ok : {A : Type 0} (a : A) → Path (Result ProcessError A) panic (ok a) → ⊥
panic-ne_ok a e = cc

module _ {P D : Type 0} (setting : Setting P D) (node : ℕ → Node) (signature : Bytes) (slot : ℕ)
    (instructions : List Instruction) (keys : List Bytes) where
  -- `e` is the notification of the n-th emitted event `m`.
  pub record Describes (n : ℕ) (m : EmittedEvent) (e : Event D) : Type 0 where
    pub slot_of : e.slot ≡ slot
    pub of_transaction : e.tx_signature ≡ signature
    pub of_program : e.program ≡ m.program_id
    pub parsed :
        parse_event setting m.event_data m.program_id ≡ ok (some (e.event_data, e.event_name))
    pub hashed :
        inner_action_hash setting instructions keys m.top_level_index e.event_data e.event_name
        ≡ ok (some e.inner_action_hash)
    pub at_height : height_of setting (fetch_block (node n) slot) ≡ ok e.block_number

  -- An emitted event that is passed over: it cannot be parsed, no specification fits it, or the
  -- payload of its batch is not found.
  pub data Skips (m : EmittedEvent) : Type 0 where
    unparsed : (x : ParseError) → parse_event setting m.event_data m.program_id ≡ err x → Skips m
    unfit : parse_event setting m.event_data m.program_id ≡ ok none → Skips m
    no_payload :
        (d : D) (name : Bytes)
        → parse_event setting m.event_data m.program_id ≡ ok (some (d, name))
        → inner_action_hash setting instructions keys m.top_level_index d name ≡ ok none
        → Skips m

  -- The notifications of the emitted events from the n-th on, one for each that is not passed over,
  -- in order; they stop early only if the result is not a success.
  pub data Follows (r : Result ProcessError (Unit {0}))
      : ℕ → List EmittedEvent → List (Event D) → Type 0 where
    finished : (n : ℕ) → Follows r n [] []
    stopped : (n : ℕ) (ms : List EmittedEvent) → r ≢ ok tt → Follows r n ms []
    skipped :
        (n : ℕ) (m : EmittedEvent) (ms : List EmittedEvent) (es : List (Event D))
        → Skips m
        → Follows r (suc n) ms es
        → Follows r n (m ∷ ms) es
    notified :
        (n : ℕ) (m : EmittedEvent) (ms : List EmittedEvent) (e : Event D) (es : List (Event D))
        → Describes n m e
        → Follows r (suc n) ms es
        → Follows r n (m ∷ ms) (e ∷ es)

  -- What was delivered for a success stays so if a later step fails.
  Follows-later :
      (r : Result ProcessError (Unit {0})) (n : ℕ) (ms : List EmittedEvent) (es : List (Event D))
      → Follows (ok tt) n ms es
      → Follows r n ms es
  Follows-later r _ _ _ (finished n) = finished n
  Follows-later r _ _ _ (stopped n ms ne) = absurd (ne refl)
  Follows-later r _ _ _ (skipped n m ms es s f) =
      skipped n m ms es s (Follows-later r (suc n) ms es f)
  Follows-later r _ _ _ (notified n m ms e es d f) =
      notified n m ms e es d (Follows-later r (suc n) ms es f)

  module _ {S : Type 0} (storage : StorageHandler S D) where
    -- A run gives the subscriber the notifications of the emitted events after those in `l`.
    pub record Notifies (l : List (Event D)) (n : ℕ) (ms : List EmittedEvent)
        (out : Result ProcessError (Unit {0}) × Progress S D) : Type 0 where
      pub events : List (Event D)
      pub grows : out.1.delivered ≡ l ++ events
      pub follows : Follows out.0 n ms events

    -- The step for one emitted event.
    data Handles (l : List (Event D)) (n : ℕ) (m : EmittedEvent)
        (out : Result ProcessError (Unit {0}) × Progress S D) : Type 0 where
      passes : Skips m → out.0 ≡ ok tt → out.1.delivered ≡ l → Handles l n m out
      fails : out.0 ≢ ok tt → out.1.delivered ≡ l → Handles l n m out
      gives : (e : Event D) → Describes n m e → out.1.delivered ≡ l ++ e ∷ [] → Handles l n m out

    notify-Handles :
        (n : ℕ) (m : EmittedEvent) (e : Event D) (g : Progress S D)
        → Describes n m e
        → Handles g.delivered n m (notify setting storage node e g)
    unfolding notify
    notify-Handles n m e g d = go (setting.add_event e) refl
      where
        go :
            (b : Bool)
            → setting.add_event e ≡ b
            → Handles g.delivered n m (
                after
                  (delivered_if setting storage node b e g)
                  (λ _. call setting storage node (storage.store_event e)))
        go true same = gives e d refl
        go false same = fails (err-ne_ok _ tt) refl

    -- A step before it that delivers nothing.
    quiet-Handles :
        {A : Type 0} (l : List (Event D)) (n : ℕ) (m : EmittedEvent)
        (x : Result ProcessError A × Progress S D)
        (f : A → Action ProcessError (Progress S D) (Unit {0}))
        → x.1.delivered ≡ l
        → ((a : A) (g : Progress S D) → x ≡ (ok a, g) → Handles l n m (f a g))
        → Handles l n m (after x f)
    quiet-Handles l n m (ok a, g) f e h = h a g refl
    quiet-Handles l n m (err x, g) f e h = fails (err-ne_ok x tt) e
    quiet-Handles l n m (panic, g) f e h = fails (panic-ne_ok tt) e

    handle_event-Handles :
        (n : ℕ) (m : EmittedEvent) (d : D) (name hash : Bytes) (g : Progress S D)
        → parse_event setting m.event_data m.program_id ≡ ok (some (d, name))
        → inner_action_hash setting instructions keys m.top_level_index d name ≡ ok (some hash)
        → Handles g.delivered n m
            (handle_event setting storage node n signature slot m d name hash g)
    unfolding handle_event
    handle_event-Handles n m d name hash g p h =
        quiet-Handles g.delivered n m (computed (height_of setting (fetch_block (node n) slot)) g) _
          refl
          (λ height g1 e1.
            let same = ap (λ x. x.1.delivered) (sym e1) in
            quiet-Handles g.delivered n m
              (call setting storage node (storage.store_latest_finalized_block_number height) g1) _
              same
              (λ u g2 e2.
                let event : Event D = record {
                  slot = slot;
                  block_number = height;
                  tx_signature = signature;
                  program = m.program_id;
                  event_name = name;
                  inner_action_hash = hash;
                  event_data = d;
                } in
                subst (λ k. Handles k n m (notify setting storage node event g2))
                  (ap (λ x. x.1.delivered) (sym e2) ∙ same)
                  (notify-Handles n m event g2 (record {
                    slot_of = refl;
                    of_transaction = refl;
                    of_program = refl;
                    parsed = p;
                    hashed = h;
                    at_height = ap (λ x. x.0) e1;
                  }))))

    hash-Handles :
        (n : ℕ) (m : EmittedEvent) (d : D) (name : Bytes) (g : Progress S D)
        (x : Result ProcessError (Option Bytes))
        → parse_event setting m.event_data m.program_id ≡ ok (some (d, name))
        → inner_action_hash setting instructions keys m.top_level_index d name ≡ x
        → Handles g.delivered n m
            (after (computed x g) (with_hash setting storage node n signature slot m d name))
    hash-Handles n m d name g (ok none) p h = passes (no_payload d name p h) refl refl
    hash-Handles n m d name g (ok (some hash)) p h = handle_event-Handles n m d name hash g p h
    hash-Handles n m d name g (err x) p h = fails (err-ne_ok x tt) refl
    hash-Handles n m d name g panic p h = fails (panic-ne_ok tt) refl

    handle_parsed-Handles :
        (n : ℕ) (m : EmittedEvent) (r : Result ParseError (Option (D × Bytes))) (g : Progress S D)
        → parse_event setting m.event_data m.program_id ≡ r
        → Handles g.delivered n m
            (handle_parsed setting storage node n instructions keys signature slot m r g)
    handle_parsed-Handles n m (ok (some (d, name))) g p = hash-Handles n m d name g _ p refl
    handle_parsed-Handles n m (ok none) g p = passes (unfit p) refl refl
    handle_parsed-Handles n m (err x) g p = passes (unparsed x p) refl refl
    handle_parsed-Handles n m panic g p = fails (panic-ne_ok tt) refl

    halted :
        (l : List (Event D)) (n : ℕ) (m : EmittedEvent) (ms : List EmittedEvent)
        (x : Result ProcessError (Unit {0}) × Progress S D)
        → x.0 ≢ ok tt
        → Handles l n m x
        → Notifies l n (m ∷ ms) x
    halted l n m ms x ne (passes s e same) = absurd (ne e)
    halted l n m ms x ne (fails _ same) = record {
      events = [];
      grows = same ∙ sym (append-nil l);
      follows = stopped n (m ∷ ms) ne;
    }
    halted l n m ms x ne (gives e d same) = record {
      events = e ∷ [];
      grows = same;
      follows = notified n m ms e [] d (stopped (suc n) ms ne);
    }

    -- One event, and then those behind it if it did not fail.
    next-Notifies :
        (l : List (Event D)) (n : ℕ) (m : EmittedEvent) (ms : List EmittedEvent)
        (x : Result ProcessError (Unit {0}) × Progress S D)
        (f : Action ProcessError (Progress S D) (Unit {0}))
        → Handles l n m x
        → ((g : Progress S D) → Notifies g.delivered (suc n) ms (f g))
        → Notifies l n (m ∷ ms) (after x (λ _. f))
    next-Notifies l n m ms (ok u, g) f (passes s e same) k =
        let rest = k g in
        record {
          events = rest.events;
          grows = rest.grows ∙ ap (λ d. d ++ rest.events) same;
          follows = skipped n m ms rest.events s rest.follows;
        }
    next-Notifies l n m ms (ok u, g) f (fails ne same) k = absurd (ne refl)
    next-Notifies l n m ms (ok u, g) f (gives e d same) k =
        let rest = k g in
        record {
          events = e ∷ rest.events;
          grows =
              rest.grows ∙ ap (λ d. d ++ rest.events) same ∙ append_assoc l (e ∷ []) rest.events;
          follows = notified n m ms e rest.events d rest.follows;
        }
    next-Notifies l n m ms (err x, g) f h k = halted l n m ms (err x, g) (err-ne_ok x tt) h
    next-Notifies l n m ms (panic, g) f h k = halted l n m ms (panic, g) (panic-ne_ok tt) h

    pub handle_events-Notifies :
        (n : ℕ) (ms : List EmittedEvent) (g : Progress S D)
        → Notifies g.delivered n ms
            (handle_events setting storage node n instructions keys signature slot ms g)
    unfolding handle_events
    handle_events-Notifies n [] g = record {
      events = [];
      grows = sym (append-nil g.delivered);
      follows = finished n;
    }
    handle_events-Notifies n (m ∷ ms) g =
        next-Notifies g.delivered n m ms _ _ (handle_parsed-Handles n m _ g refl)
          (λ g'. handle_events-Notifies (suc n) ms g')

    -- The finalization delivers nothing.
    pub then_finalize :
        (l : List (Event D)) (n : ℕ) (ms : List EmittedEvent)
        (x : Result ProcessError (Unit {0}) × Progress S D)
        → Notifies l n ms x
        → Notifies l n ms (after x (λ _. finalize setting storage node signature))
    then_finalize l n ms (ok u, g) h = record {
      events = h.events;
      grows = h.grows;
      follows = Follows-later _ n ms h.events h.follows;
    }
    then_finalize l n ms (err x, g) h = record {
      events = h.events;
      grows = h.grows;
      follows = h.follows;
    }
    then_finalize l n ms (panic, g) h = record {
      events = h.events;
      grows = h.grows;
      follows = h.follows;
    }
