-- ===== src/Sendtx/Build/Transfers.antt =====
-- sendtx/tx_sender.go: the builders of plain transfers and token accounts.
use solana_infrastructure.Wallet.Keys.{GenericInstruction}
use solana_infrastructure.Sendtx.Data.{
  SolTransferDto, SplTransferDto, CreateInstructionDto, Outside,
}
use solana_infrastructure.Sendtx.Monad.{
  M, ◌>>=◌, return, sender, receiver, token_mint, destination, parse_address,
}
use solana_infrastructure.Sendtx.Build.{token_account}

module _ (O : Outside) where
  unfoldable pub build_transfer_instruction : SolTransferDto → M GenericInstruction
  build_transfer_instruction tx = do
    from ← parse_address O.solana sender tx.sender_public_key
    to ← parse_address O.solana receiver tx.receiver_public_key
    return (O.transfer tx.amount from to)

  unfoldable pub build_spl_transfer_instruction : SplTransferDto → M GenericInstruction
  build_spl_transfer_instruction tx = do
    from ← parse_address O.solana sender tx.sender_public_key
    to ← parse_address O.solana receiver tx.receiver_public_key
    mint ← parse_address O.solana token_mint tx.mint_token_address
    source_ata ← token_account O sender from mint
    destination_ata ← token_account O destination to mint
    return (O.token_transfer tx.amount source_ata destination_ata from)

  unfoldable pub build_create_instruction : CreateInstructionDto → M GenericInstruction
  build_create_instruction tx = do
    from ← parse_address O.solana sender tx.sender_public_key
    to ← parse_address O.solana receiver tx.receiver_public_key
    mint ← parse_address O.solana token_mint tx.mint_token_address
    return (O.create_associated from to mint)
