-- ===== src/Tracker/Cpi/Adjacent.antt =====
-- About `findBatchPayloadAtInstruction`: which of an instruction's neighbours is chosen.
use solana_infrastructure.Base.{
  ℕ, zero, suc, ◌+◌, ◌<◌, ◌≡◌, ◌⊎◌, ◌↔◌, refl, subst, true, List, [], ◌∷◌, Option, some, Result, ok,
  err, panic, length, leb, if◌then◌else◌, arith, Bool-cases, inl, inr,
}
use solana_infrastructure.Base.Bytes.{Bytes}
use solana_infrastructure.Tracker.Payload.{PayloadError, extract_solana_payload_from_ed25519}
use solana_infrastructure.Tracker.Cpi.{
  Instruction, index_before, instruction_program_equals, uint16, payload_at, same_batch,
  payload_of_adjacent, first_adjacent, find_batch_payload_at_instruction,
}

module _ {P : Type 0} (unmarshal : Bytes → Option P) (batch_id : P → ℕ) (ed25519_program : Bytes)
    (instructions : List Instruction) (keys : List Bytes) where
  abbrev pub IsEd25519 : Option ℕ → Type 0
  IsEd25519 i = instruction_program_equals instructions keys i ed25519_program ≡ true

  -- The instruction at `i` carries `p`, read as the instruction at that index.
  abbrev pub Carries : ℕ → P → Type 0
  Carries i p =
      extract_solana_payload_from_ed25519 unmarshal (payload_at instructions i) (uint16 i) ≡ ok p

  -- Which of the two neighbours of `top` is asked for the payload.
  abbrev pub IsChosen : ℕ → ℕ → Type 0
  IsChosen top i =
      IsEd25519 (some i) × ((top ≡ i + 1) ⊎ ((i ≡ top + 1) × (¬ IsEd25519 (index_before top))))

  same_batch_sound :
      (i event_batch : ℕ) (r : Result PayloadError P) (p : P)
      → same_batch unmarshal batch_id ed25519_program i event_batch r ≡ ok p
      → (r ≡ ok p) × (batch_id p ≡ event_batch)
  same_batch_sound i event_batch (ok q) p e = ground (arith, e)
  same_batch_sound i event_batch (err x) p e = absurd cc
  same_batch_sound i event_batch panic p e = absurd cc

  payload_of_adjacent-ok :
      (i event_batch : ℕ) (p : P)
      → (payload_of_adjacent unmarshal batch_id ed25519_program instructions event_batch i ≡ ok p)
        ↔ (Carries i p × (batch_id p ≡ event_batch))
  unfolding payload_of_adjacent
  payload_of_adjacent-ok i event_batch p =
      (same_batch_sound i event_batch _ p, λ (carries, same). ground (arith, carries, same))

  abbrev Finds : ℕ → ℕ → P → Type 0
  Finds top event_batch p =
      find_batch_payload_at_instruction unmarshal batch_id ed25519_program instructions keys top
        event_batch
      ≡ ok p

  -- What the search finds, spelled out.
  abbrev pub Found : ℕ → ℕ → P → Type 0
  Found top event_batch p =
      (top < length instructions)
      × ((i : ℕ) × IsChosen top i × (Carries i p × (batch_id p ≡ event_batch)))

  abbrev ResultOf : ℕ → List (Option ℕ) → P → Type 0
  ResultOf event_batch candidates p =
      first_adjacent unmarshal batch_id ed25519_program instructions keys event_batch candidates
      ≡ ok p

  after-ok :
      (k event_batch : ℕ) (p : P)
      → ResultOf event_batch (some k ∷ []) p
      → IsEd25519 (some k) × (Carries k p × (batch_id p ≡ event_batch))
  unfolding first_adjacent
  after-ok k event_batch p e =
      elim (Bool-cases (instruction_program_equals instructions keys (some k) ed25519_program)) [
        | inl here ↦ (here, (payload_of_adjacent-ok k event_batch p).0 (ground (arith, here, e)))
        | inr nothing ↦ absurd (ground (arith, nothing, e))
      ]

  before-ok :
      (top event_batch : ℕ) (p : P)
      → ResultOf event_batch (index_before top ∷ some (top + 1) ∷ []) p
      → (i : ℕ) × IsChosen top i × (Carries i p × (batch_id p ≡ event_batch))
  unfolding first_adjacent instruction_program_equals
  before-ok zero event_batch p e =
      let (here, found) = after-ok 1 event_batch p e in
      (1, (here, inr (refl, λ h. absurd cc)), found)
  before-ok (suc i) event_batch p e =
      elim (Bool-cases (instruction_program_equals instructions keys (some i) ed25519_program)) [
        | inl here ↦
            let found = (payload_of_adjacent-ok i event_batch p).0 (ground (arith, here, e)) in
            (i, (here, inl (omega arith)), found)
        | inr nothing ↦
            let (here, found) = after-ok (suc i + 1) event_batch p (ground (arith, nothing, e)) in
            (suc i + 1, (here, inr (refl, λ h. absurd (cc (h, nothing)))), found)
      ]

  chosen-before :
      (top i event_batch : ℕ) (p : P)
      → top ≡ i + 1
      → IsEd25519 (some i)
      → Carries i p × (batch_id p ≡ event_batch)
      → ResultOf event_batch (index_before top ∷ some (top + 1) ∷ []) p
  unfolding first_adjacent
  chosen-before zero i event_batch p e here found = absurd (omega arith)
  chosen-before (suc j) i event_batch p e here found =
      let same : i ≡ j = omega arith in
      let at_j = subst (λ k. IsEd25519 (some k)) same here in
      let found_j = subst (λ k. Carries k p × (batch_id p ≡ event_batch)) same found in
      rw (at_j, if◌then◌else◌) ((payload_of_adjacent-ok j event_batch p).1 found_j)

  chosen-after :
      (top event_batch : ℕ) (p : P)
      → ¬ IsEd25519 (index_before top)
      → IsEd25519 (some (top + 1))
      → Carries (top + 1) p × (batch_id p ≡ event_batch)
      → ResultOf event_batch (index_before top ∷ some (top + 1) ∷ []) p
  unfolding first_adjacent
  chosen-after top event_batch p nothing here found =
      elim (Bool-cases
        (instruction_program_equals instructions keys (index_before top) ed25519_program)) [
          | inl there ↦ absurd (nothing there)
          | inr none_there ↦
              rw (none_there, here, if◌then◌else◌)
                ((payload_of_adjacent-ok (top + 1) event_batch p).1 found)
        ]

  any-chosen :
      (top i event_batch : ℕ) (p : P)
      → IsChosen top i
      → Carries i p × (batch_id p ≡ event_batch)
      → ResultOf event_batch (index_before top ∷ some (top + 1) ∷ []) p
  any-chosen top i event_batch p (here, inl e) found =
      chosen-before top i event_batch p e here found
  any-chosen top i event_batch p (here, inr (e, nothing)) found =
      chosen-after top event_batch p nothing (subst (λ k. IsEd25519 (some k)) e here)
        (subst (λ k. Carries k p × (batch_id p ≡ event_batch)) e found)

  -- `findBatchPayloadAtInstruction` returns a payload exactly if the instruction's index is in
  -- range and the ed25519 instruction directly before it, or if there is none there the one
  -- directly after it, carries that payload and its batch id is the event's.
  pub find_batch_payload_at_instruction_iff :
      (top event_batch : ℕ) (p : P) → Finds top event_batch p ↔ Found top event_batch p
  unfolding find_batch_payload_at_instruction
  find_batch_payload_at_instruction_iff top event_batch p = (
    λ e. elim (Bool-cases (leb (length instructions) top)) [
      | inl outside ↦ absurd (ground (arith, outside, e))
      | inr inside ↦ (ground arith, before-ok top event_batch p (ground (arith, inside, e)))
    ],
    λ (lt, (i, chosen, found)). ground (arith, lt, any-chosen top i event_batch p chosen found),
  )
