-- ===== src/Tracker/Cpi/Emitted.antt =====
-- About `collectCPIEvents`: which inner instructions emit an event.
use solana_infrastructure.Base.{
  ℕ, ◌<◌, ◌≡◌, ◌⊎◌, refl, sym, ap, ◌∙◌, Bool, true, false, ◌&&◌, List, [], ◌∷◌, ◌++◌, Option, none,
  some, length, length-drop, take-drop, get_elem?, take, drop, ltb, if◌then◌else◌, arith,
  Bool-cases, inl, inr,
}
use solana_infrastructure.Base.Bytes.{Bytes, bytes_eq, bytes_eq→eq, bytes_eq_refl}
use solana_infrastructure.Tracker.Cpi.{
  Instruction, InnerInstruction, EmittedEvent, event_ix_tag_le, has_tag, signed_by, key_is,
  event_of, of_program, events_of_instructions, collect_cpi_events,
}

-- The inner instructions in order, each with the index of its top-level instruction.
abbrev pub indexed : ℕ → List Instruction → List (ℕ × Instruction) → List (ℕ × Instruction)
indexed index [] later = later
indexed index (ix ∷ rest) later = (index, ix) ∷ indexed index rest later

abbrev pub all_instructions : List InnerInstruction → List (ℕ × Instruction)
all_instructions [] = []
all_instructions (group ∷ rest) = indexed group.index group.instructions (all_instructions rest)

split_and : (x y : Bool) → (x && y) ≡ true → (x ≡ true) × (y ≡ true)
split_and true y h = (refl, h)
split_and false y h = absurd cc

bool_clash : {x : Bool} → x ≡ true → x ≡ false → ⊥
bool_clash h k = cc

has_tag-split :
    (payload : Bytes)
    → has_tag payload ≡ true
    → (payload ≡ event_ix_tag_le ++ drop (length event_ix_tag_le) payload)
      × (0 < length (drop (length event_ix_tag_le) payload))
has_tag-split payload h =
    let (longer, tag) =
      split_and (ltb 8 (length payload)) (bytes_eq (take 8 payload) event_ix_tag_le) h in
    (
      sym (take-drop 8 payload)
          ∙ ap (λ x. x ++ drop 8 payload) (bytes_eq→eq (take 8 payload) event_ix_tag_le tag),
      ground (arith, longer, length-drop 8 payload),
    )

has_tag_complete :
    (payload event : Bytes)
    → payload ≡ event_ix_tag_le ++ event
    → 0 < length event
    → has_tag payload ≡ true
has_tag_complete payload event e some_bytes =
    rw e (ground (arith, some_bytes, bytes_eq_refl event_ix_tag_le))

module _ (keys : List Bytes) (event_authority_of : Bytes → Option Bytes) where
  -- A tracked program is invoked with the tag and the event as data, and with its event authority
  -- as the first account.
  pub record IsEvent (index : ℕ) (ix : Instruction) (e : EmittedEvent) : Type 0 where
    pub authority : Bytes
    pub account : ℕ
    pub more : List ℕ
    pub program : get_elem? keys ix.program_id_index ≡ some e.program_id
    pub tracked : event_authority_of e.program_id ≡ some authority
    pub tagged : ix.payload ≡ event_ix_tag_le ++ e.event_data
    pub not_empty : 0 < length e.event_data
    pub first_account : ix.accounts ≡ account ∷ more
    pub signs : get_elem? keys account ≡ some authority
    pub under : e.top_level_index ≡ index

  -- The events are those of the instructions that have one, in order.
  pub data Emits : List (ℕ × Instruction) → List EmittedEvent → Type 0 where
    no_more : Emits [] []
    emitted :
        {l : List (ℕ × Instruction)} {es : List EmittedEvent} {index : ℕ} {ix : Instruction}
        {e : EmittedEvent}
        → IsEvent index ix e
        → Emits l es
        → Emits ((index, ix) ∷ l) (e ∷ es)
    skipped :
        {l : List (ℕ × Instruction)} {es : List EmittedEvent} {index : ℕ} {ix : Instruction}
        → ((e : EmittedEvent) → ¬ IsEvent index ix e)
        → Emits l es
        → Emits ((index, ix) ∷ l) es

  -- Of one instruction: its event comes first, or it has none.
  abbrev Step : ℕ → Instruction → List EmittedEvent → List EmittedEvent → Type 0
  Step index ix later events =
      ((e : EmittedEvent) × IsEvent index ix e × (events ≡ e ∷ later))
      ⊎ (((e : EmittedEvent) → ¬ IsEvent index ix e) × (events ≡ later))

  key_is-some :
      (o : Option Bytes) (a : Bytes) → key_is keys event_authority_of o a ≡ true → o ≡ some a
  key_is-some none a h = absurd cc
  key_is-some (some k) a h = ap some (bytes_eq→eq k a h)

  signed_by-account :
      (l : List ℕ) (a : Bytes)
      → signed_by keys event_authority_of l a ≡ true
      → (account : ℕ) × (more : List ℕ) × (l ≡ account ∷ more) × (get_elem? keys account ≡ some a)
  signed_by-account [] a h = absurd cc
  signed_by-account (account ∷ more) a h =
      (account, more, refl, key_is-some (get_elem? keys account) a h)

  signed_by_complete :
      (l : List ℕ) (account : ℕ) (more : List ℕ) (a : Bytes)
      → l ≡ account ∷ more
      → get_elem? keys account ≡ some a
      → signed_by keys event_authority_of l a ≡ true
  signed_by_complete l account more a e h = rw (e, signed_by, h) (bytes_eq_refl a)

  same_authority :
      (index : ℕ) (ix : Instruction) (program_id a : Bytes) (e : EmittedEvent)
      (x : IsEvent index ix e)
      → get_elem? keys ix.program_id_index ≡ some program_id
      → event_authority_of program_id ≡ some a
      → x.authority ≡ a
  same_authority index ix program_id a e x key tracked = cc

  not_signed :
      {index : ℕ} (ix : Instruction) (a : Bytes) (e : EmittedEvent) (x : IsEvent index ix e)
      → signed_by keys event_authority_of ix.accounts a ≡ false
      → x.authority ≡ a
      → ⊥
  not_signed ix a e x no_signer same =
      bool_clash
        (signed_by_complete ix.accounts x.account x.more a x.first_account (x.signs ∙ ap some same))
        no_signer

  of_authority-Step :
      (index : ℕ) (ix : Instruction) (program_id : Bytes) (o : Option Bytes)
      (later : List EmittedEvent)
      → get_elem? keys ix.program_id_index ≡ some program_id
      → event_authority_of program_id ≡ o
      → Step index ix later (event_of keys event_authority_of index ix program_id o later)
  of_authority-Step index ix program_id none later key untracked = inr (λ e x. cc, refl)
  of_authority-Step index ix program_id (some a) later key tracked =
      elim (Bool-cases (has_tag ix.payload)) [
        | inl tag ↦ elim (Bool-cases (signed_by keys event_authority_of ix.accounts a)) [
          | inl s ↦
              let (split, some_bytes) = has_tag-split ix.payload tag in
              let (account, more, first, signs) = signed_by-account ix.accounts a s in
              inl (
                _,
                record {
                  authority = a;
                  account = account;
                  more = more;
                  program = key;
                  tracked = tracked;
                  tagged = split;
                  not_empty = some_bytes;
                  first_account = first;
                  signs = signs;
                  under = refl;
                },
                rw (tag, s, if◌then◌else◌) refl,
              )
          | inr s ↦ inr (
            λ e x. not_signed ix a e x s (same_authority index ix program_id a e x key tracked),
            rw (tag, s, if◌then◌else◌) refl,
          )
        ]
        | inr tag ↦ inr (
          λ e x. bool_clash (has_tag_complete ix.payload e.event_data x.tagged x.not_empty) tag,
          rw (tag, if◌then◌else◌) refl,
        )
      ]

  of_program-Step :
      (index : ℕ) (ix : Instruction) (o : Option Bytes) (later : List EmittedEvent)
      → get_elem? keys ix.program_id_index ≡ o
      → Step index ix later (of_program keys event_authority_of index ix o later)
  of_program-Step index ix none later key = inr (λ e x. ground (arith, x.program, key), refl)
  of_program-Step index ix (some program_id) later key =
      of_authority-Step index ix program_id (event_authority_of program_id) later key refl

  add-Step :
      (index : ℕ) (ix : Instruction) (l : List (ℕ × Instruction)) (later es : List EmittedEvent)
      → Step index ix later es
      → Emits l later
      → Emits ((index, ix) ∷ l) es
  add-Step index ix l later es (inl (e, x, same)) r = rw same (emitted x r)
  add-Step index ix l later es (inr (none_here, same)) r = rw same (skipped none_here r)

  events_of_instructions-Emits :
      (index : ℕ) (ixs : List Instruction) (l : List (ℕ × Instruction)) (later : List EmittedEvent)
      → Emits l later
      → Emits (indexed index ixs l) (events_of_instructions keys event_authority_of index ixs later)
  unfolding events_of_instructions
  events_of_instructions-Emits index [] l later r = r
  events_of_instructions-Emits index (ix ∷ rest) l later r =
      add-Step index ix _ _ _ (of_program-Step index ix _ _ refl)
        (events_of_instructions-Emits index rest l later r)

  -- `collectCPIEvents` returns exactly the events of the inner instructions that invoke a tracked
  -- program with the event tag and a non-empty event as data and the program's own event authority
  -- as first account, each once, in the order of the instructions and with their top-level index.
  pub collect_cpi_events-Emits :
      (inner : List InnerInstruction)
      → Emits (all_instructions inner) (collect_cpi_events keys event_authority_of inner)
  unfolding collect_cpi_events
  collect_cpi_events-Emits [] = no_more
  collect_cpi_events-Emits (group ∷ rest) =
      events_of_instructions-Emits group.index group.instructions _ _
        (collect_cpi_events-Emits rest)
