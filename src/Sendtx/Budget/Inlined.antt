-- ===== src/Sendtx/Budget/Inlined.antt =====
-- About inlineComputeBudget and defaultComputeUnitLimit.
use Prim.Native.Nat.{min}
use solana_infrastructure.Base.{
  ℕ, ◌*◌, ◌≡◌, ◌⊎◌, refl, Bool, true, false, not, List, [], ◌∷◌, ◌++◌, append_assoc, append-nil,
  keep, Option, none, some, ok, err, Bool-cases, Option-cases, length, inl, inr, arith,
}
use solana_infrastructure.Base.Bytes.{Bytes, bytes_eq}
use solana_infrastructure.Wallet.Keys.{PublicKey, AccountMeta, GenericInstruction}
use solana_infrastructure.Sendtx.Budget.{
  ComputeBudget, set_compute_unit_limit, set_loaded_accounts_data_size_limit, BudgetError,
  undecodable_budget, unconvertible_budget, other_budget, TransactionConfig, no_config,
  default_compute_unit_limit, or_default, fold_in, inline_loop, inline_compute_budget,
}

-- defaultComputeUnitLimit is 200,000 for each instruction, and at most 1,400,000.
pub default_compute_unit_limit-eq-min :
    (n : ℕ) → default_compute_unit_limit n ≡ min (200000 * n) 1400000
unfolding default_compute_unit_limit
default_compute_unit_limit-eq-min n = ground arith

module _ (budget_id : PublicKey) (decode : List AccountMeta → Bytes → Option ComputeBudget) where
  abbrev pub is_budget : GenericInstruction → Bool
  is_budget i = bytes_eq i.program_id budget_id

  -- What one instruction leaves of the config: none if it cannot be converted.
  abbrev converted : Option ComputeBudget → TransactionConfig → Option TransactionConfig
  converted none c = none
  converted (some (set_compute_unit_limit n)) c = some (record c { compute_unit_limit = some n })
  converted (some (set_loaded_accounts_data_size_limit n)) c =
      some (record c { loaded_accounts_data_size_limit = some n })
  converted (some other_budget) c = none

  -- The config that the budget instructions ask for, the later ones over the earlier ones; none if
  -- one of them cannot be decoded or asks for anything but the two limits.
  unfoldable pub requested : List GenericInstruction → TransactionConfig → Option TransactionConfig
  requested [] c = some c
  requested (i ∷ is) c = elim (is_budget i) [
    | false ↦ requested is c
    | true ↦ elim (converted (decode i.accounts i.raw) c) [
      | none ↦ none
      | some c' ↦ requested is c'
    ]
  ]

  -- The other instructions, in their order.
  abbrev pub others : List GenericInstruction → List GenericInstruction
  others is = keep (λ i. not (is_budget i)) is

  fold_in-converted :
      (i : GenericInstruction) (c : TransactionConfig)
      → ((c' : TransactionConfig) × (fold_in budget_id decode i c ≡ ok c')
          × (converted (decode i.accounts i.raw) c ≡ some c'))
        ⊎ ((e : BudgetError) × (fold_in budget_id decode i c ≡ err e)
            × (converted (decode i.accounts i.raw) c ≡ none))
  unfolding fold_in
  fold_in-converted i c = by_decoded (decode i.accounts i.raw) refl
    where
      by_decoded :
          (o : Option ComputeBudget)
          → decode i.accounts i.raw ≡ o
          → ((c' : TransactionConfig) × (fold_in budget_id decode i c ≡ ok c')
              × (converted (decode i.accounts i.raw) c ≡ some c'))
            ⊎ ((e : BudgetError) × (fold_in budget_id decode i c ≡ err e)
                × (converted (decode i.accounts i.raw) c ≡ none))
      by_decoded none h = inr (undecodable_budget, ground (arith, h), ground (arith, h))
      by_decoded (some (set_compute_unit_limit n)) h =
          inl (record c { compute_unit_limit = some n }, ground (arith, h), ground (arith, h))
      by_decoded (some (set_loaded_accounts_data_size_limit n)) h = inl (
        record c { loaded_accounts_data_size_limit = some n },
        ground (arith, h),
        ground (arith, h),
      )
      by_decoded (some other_budget) h =
          inr (unconvertible_budget, ground (arith, h), ground (arith, h))

  -- The loop against the config that is requested.
  record Loop (is remaining : List GenericInstruction) (c : TransactionConfig) : Type 0 where
    pub granted :
        (last : TransactionConfig)
        → requested is c ≡ some last
        → inline_loop budget_id decode is remaining c ≡ ok (remaining ++ others is, last)
    pub refused :
        requested is c ≡ none
        → (e : BudgetError) × (inline_loop budget_id decode is remaining c ≡ err e)

  loop : (is remaining : List GenericInstruction) (c : TransactionConfig) → Loop is remaining c
  unfolding inline_loop requested
  loop [] remaining c = record {
    granted = λ last h. ground (arith, h, append-nil remaining);
    refused = λ h. absurd (cc);
  }
  loop (i ∷ is) remaining c = elim (Bool-cases (is_budget i)) [
    | inl budget ↦ elim (fold_in-converted i c) [
      | inl (c', folds, goes) ↦
          let l = loop is remaining c' in
          record {
            granted = λ last h. ground (arith, h, budget, folds, goes, l.granted last);
            refused = λ h.
                let (e, fails) = l.refused (ground (arith, h, budget, goes)) in
                (e, ground (arith, budget, folds, fails));
          }
      | inr (e, fails, gone) ↦ record {
        granted = λ last h. absurd (ground (arith, h, budget, gone));
        refused = λ h. (e, ground (arith, budget, fails));
      }
    ]
    | inr other ↦
        let l = loop is (remaining ++ i ∷ []) c in
        record {
          granted = λ last h.
              ground (arith, h, other, l.granted last, append_assoc remaining (i ∷ []) (others is));
          refused = λ h.
              let (e, fails) = l.refused (ground (arith, h, other)) in
              (e, ground (arith, other, fails));
        }
  ]

  -- inlineComputeBudget returns the other instructions in their order, with the limits that the
  -- budget instructions ask for last, and in place of one that none asks for 200,000 units for each
  -- instruction that remains, at most 1,400,000, or 64 MiB of loaded data. It fails exactly if a
  -- budget instruction cannot be decoded or asks for anything else.
  pub inline_compute_budget_lem :
      (is : List GenericInstruction)
      → ((c : TransactionConfig) × (requested is no_config ≡ some c)
          × (inline_compute_budget budget_id decode is
              ≡ ok (
                others is,
                record {
                  compute_units =
                      or_default c.compute_unit_limit (min (200000 * length (others is)) 1400000);
                  loaded_bytes = or_default c.loaded_accounts_data_size_limit 67108864;
                },
              )))
        ⊎ ((requested is no_config ≡ none)
            × (e : BudgetError) × (inline_compute_budget budget_id decode is ≡ err e))
  unfolding inline_compute_budget
  inline_compute_budget_lem is = elim (Option-cases (requested is no_config)) [
    | inl nothing ↦
        let (e, fails) = (loop is [] no_config).refused nothing in inr (nothing, e, rw fails refl)
    | inr (c, all) ↦ inl (
      c,
      all,
      rw
          (
            (loop is [] no_config).granted c all,
            default_compute_unit_limit-eq-min (length (others is)),
          )
          refl,
    )
  ]
