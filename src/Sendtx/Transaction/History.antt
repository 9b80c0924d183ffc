-- ===== src/Sendtx/Transaction/History.antt =====
-- About CreateTx on a sender that other calls have used before.
use solana_infrastructure.Base.{ℕ, ◌≡◌, refl, sym, ◌∙◌, ap, List, [], ◌∷◌, Option, Result}
use solana_infrastructure.Base.Bytes.{Bytes}
use solana_infrastructure.Wallet.Keys.{PublicKey, AccountMeta, GenericInstruction}
use solana_infrastructure.Sendtx.Config.{InstructionConfig}
use solana_infrastructure.Sendtx.Data.{ChainConfig, Outside}
use solana_infrastructure.Sendtx.Monad.{SendError}
use solana_infrastructure.Sendtx.Budget.{ComputeBudget}
use solana_infrastructure.Sendtx.Instructions.{InstructionType, TxDto}
use solana_infrastructure.Sendtx.Instructions.SideBySide.{
  SameRun, same_then, bind-Still, lift-Still,
}
use solana_infrastructure.Sendtx.Instructions.Confined.{with_leftovers, build_instructions_same}
use solana_infrastructure.Sendtx.Instructions.Kept.{Keeps, Keeps-bind, Keeps-lift, trans}
use solana_infrastructure.Sendtx.Instructions.Builders.{
  build_instructions-Keeps, bridge_transaction_alt_addresses-Keeps,
}
use solana_infrastructure.Sendtx.Transaction.{
  AddressTables, TxOption, create_tx, bridge_transaction_alt_addresses,
}

-- The calls that change the sender's config.
pub data SenderCall : Type 0 where
  create : InstructionType → TxDto → List (Option AddressTables) → SenderCall
  alt_addresses : PublicKey → List (ℕ × PublicKey) → SenderCall

module _ {Tx : Type 0} (O : Outside) (C : ChainConfig) (budget_id : PublicKey)
    (decode : List AccountMeta → Bytes → Option ComputeBudget)
    (build : List GenericInstruction → TxOption → Result SendError Tx)
    (sorted : List (ℕ × PublicKey) → List (ℕ × PublicKey)) where
  -- The config that a call leaves, whether it succeeds or fails.
  abbrev pub after_call : SenderCall → InstructionConfig → InstructionConfig
  after_call (create kind dto opts) c = (create_tx O C budget_id decode build kind dto opts c).0
  after_call (alt_addresses program mints) c =
      (bridge_transaction_alt_addresses O sorted program mints c).0

  unfoldable pub after_calls : List SenderCall → InstructionConfig → InstructionConfig
  after_calls [] c = c
  after_calls (call ∷ calls) c = after_calls calls (after_call call c)

  create_tx-Keeps :
      (kind : InstructionType) (dto : TxDto) (opts : List (Option AddressTables))
      → Keeps (create_tx O C budget_id decode build kind dto opts)
  unfolding create_tx
  create_tx-Keeps kind dto opts =
      Keeps-bind _ _ (build_instructions-Keeps O C kind dto)
        λ is. Keeps-bind _ _ (Keeps-lift _) λ chosen. Keeps-lift (build chosen.0 chosen.1)

  after_call_keeps :
      (call : SenderCall) (c : InstructionConfig)
      → with_leftovers c (after_call call c) ≡ after_call call c
  after_call_keeps (create kind dto opts) c = (create_tx-Keeps kind dto opts).keeps c
  after_call_keeps (alt_addresses program mints) c =
      (bridge_transaction_alt_addresses-Keeps O sorted program mints).keeps c

  after_calls_keeps :
      (calls : List SenderCall) (c : InstructionConfig)
      → with_leftovers c (after_calls calls c) ≡ after_calls calls c
  unfolding after_calls
  after_calls_keeps [] c = refl
  after_calls_keeps (call ∷ calls) c =
      trans c (after_call call c) (after_calls calls (after_call call c)) (after_call_keeps call c)
        (after_calls_keeps calls (after_call call c))

  create_tx_same :
      (kind : InstructionType) (dto : TxDto) (opts : List (Option AddressTables))
      (c old : InstructionConfig)
      → SameRun (create_tx O C budget_id decode build kind dto opts) c (with_leftovers c old)
  unfolding create_tx
  create_tx_same kind dto opts c old =
      same_then _ _ c (with_leftovers c old) (build_instructions_same O C kind dto c old)
        λ is. bind-Still _ _ (lift-Still _) λ chosen. lift-Still (build chosen.0 chosen.1)

  -- Whatever calls of CreateTx and BridgeTransactionALTAddresses a sender has taken before, failing
  -- ones included, CreateTx returns the transaction or the error that it returns without them.
  pub create_tx-after_calls :
      (calls : List SenderCall) (kind : InstructionType) (dto : TxDto)
      (opts : List (Option AddressTables)) (c : InstructionConfig)
      → (create_tx O C budget_id decode build kind dto opts (after_calls calls c)).1
        ≡ (create_tx O C budget_id decode build kind dto opts c).1
  create_tx-after_calls calls kind dto opts c =
      ap (λ x. (create_tx O C budget_id decode build kind dto opts x).1)
        (sym (after_calls_keeps calls c))
      ∙ sym (create_tx_same kind dto opts c (after_calls calls c)).results
