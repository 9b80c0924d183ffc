-- ===== src/Sendtx/Mints/Accounts.antt =====
-- About bridgeTransactionRemainingAccounts, on what deriveBridgeMintsAndTransfers returns.
use solana_infrastructure.Base.{
  ℕ, suc, ◌+◌, ◌*◌, ◌≤◌, ◌≡◌, refl, sym, ap, ◌∙◌, subst, true, false, List, [], ◌∷◌, ◌++◌, map,
  some, Result, ok, guard, bind-ok, or_fail, or_fail-ok, ok-injective, get_elem?-lt, length,
  length-append, get_elem?, get_elem?-append_left, get_elem?-append_right, All2, All2-length,
  All2-get_elem?, All2-get_elem?_right, ◌==◌, arith,
}
use solana_infrastructure.Base.Bytes.{Bytes, put_uint16}
use solana_infrastructure.Wallet.Keys.{PublicKey, AccountMeta, account_meta, Solana}
use solana_infrastructure.Sendtx.Program.{token_registry_seed}
use solana_infrastructure.Sendtx.Data.{PayloadReceiver, TransferItem, TokenRegistry}
use solana_infrastructure.Sendtx.Monad.{SendError}
use solana_infrastructure.Sendtx.Mints.{
  Derived, mint_of, derive_bridge_mints_and_transfers, registry_account, associated_account,
  recipient_account, each_account, bridge_transaction_remaining_accounts,
}
use solana_infrastructure.Sendtx.Mints.Derivation.{
  Carries, IsMintOf, Matches, derive_bridge_mints_and_transfers-Matches,
}

length-map : {A B : Type 0} (f : A → B) (xs : List A) → length (map f xs) ≡ length xs
length-map f [] = refl
length-map f (x ∷ xs) = omega (arith, length-map f xs)

-- The account that the loop appends for an element.
record Gives {A : Type 0} (f : A → Result SendError AccountMeta) (x : A) (a : AccountMeta)
    : Type 0 where
  pub gives : f x ≡ ok a

each_account-Gives :
    {A : Type 0} (f : A → Result SendError AccountMeta) (xs : List A) (out : List AccountMeta)
    → each_account f xs ≡ ok out
    → All2 (Gives f) xs out
unfolding each_account
each_account-Gives f [] [] e = tt
each_account-Gives f [] (a ∷ out) e = absurd cc
each_account-Gives f (x ∷ xs) out e =
    let (a, one, e1) = bind-ok (f x) _ out e in
    let (rest, more, e2) = bind-ok (each_account f xs) _ out e1 in
    let same : a ∷ rest ≡ out = cc in
    subst (All2 (Gives f) (x ∷ xs)) same (record { gives = one }, each_account-Gives f xs rest more)

-- A loop whose every round succeeds succeeds.
each_account_total :
    {A : Type 0} (f : A → Result SendError AccountMeta) (xs : List A)
    → ((i : ℕ) (x : A) → get_elem? xs i ≡ some x → (a : AccountMeta) × (f x ≡ ok a))
    → (out : List AccountMeta) × (each_account f xs ≡ ok out)
unfolding each_account
each_account_total f [] all = ([], refl)
each_account_total f (x ∷ xs) all =
    let (a, one) = all 0 x refl in
    let (rest, more) = each_account_total f xs (λ i. all (suc i)) in (a ∷ rest, rw (one, more) refl)

-- The receiver's token account, in the order of the receivers, behind the mints, the recipients and
-- the registry entries.
pub record Layout (S : Solana) (registered : List TokenRegistry) (receivers : List PayloadReceiver)
    (d : Derived) (out : List AccountMeta) : Type 0 where
  pub count : length out ≡ 3 * length d.mints + 2 * length receivers
  pub token_account :
      (k : ℕ) (r : PayloadReceiver)
      → get_elem? receivers k ≡ some r
      → (ata : PublicKey) × (S.associated_address r.address
            (mint_of registered r.token_amount.token_id)
          ≡ some ata)
        × (get_elem? out (2 * length d.mints + length receivers + k)
            ≡ some (account_meta ata true false))

associated_account-key :
    (S : Solana) (owner mint : PublicKey) (a : AccountMeta)
    → associated_account S owner mint ≡ ok a
    → (ata : PublicKey) × (S.associated_address owner mint ≡ some ata)
      × (account_meta ata true false ≡ a)
associated_account-key S owner mint a e =
    let (ata, found, e1) = bind-ok (or_fail (S.associated_address owner mint) _) _ a e in
    (ata, or_fail-ok (S.associated_address owner mint) _ ata found, ground (arith, e1))

-- The transfer's mint stands at its index while there are at most 256 mints.
carried_mint :
    (registered : List TokenRegistry) (mints : List PublicKey) (r : PayloadReceiver)
    (t : TransferItem)
    → length mints ≤ 256
    → Carries registered mints r t
    → get_elem? mints t.mint_index ≡ some (mint_of registered r.token_amount.token_id)
carried_mint registered mints r t few c =
    let lt = get_elem?-lt mints c.position _ c.mint_there in
    let here : t.mint_index ≡ c.position = omega (arith, c.index) in
    ap (get_elem? mints) here ∙ c.mint_there

recipient_account-carried :
    (S : Solana) (registered : List TokenRegistry) (mints : List PublicKey) (r : PayloadReceiver)
    (t : TransferItem)
    → length mints ≤ 256
    → Carries registered mints r t
    → recipient_account S mints t
      ≡ associated_account S r.address (mint_of registered r.token_amount.token_id)
unfolding recipient_account
recipient_account-carried S registered mints r t few c =
    ground (arith, carried_mint registered mints r t few c, c.to)

module _ (S : Solana) (receivers : List PayloadReceiver) (registered : List TokenRegistry)
    (d : Derived) (vault program : PublicKey)
    (derived : derive_bridge_mints_and_transfers S receivers registered ≡ ok d)
    (few : length d.mints ≤ 256) where
  m : Matches registered receivers d
  m = derive_bridge_mints_and_transfers-Matches S receivers registered d derived

  token_account_of :
      (recipients : List AccountMeta) (k : ℕ) (r : PayloadReceiver)
      → each_account (recipient_account S d.mints) d.transfers ≡ ok recipients
      → get_elem? receivers k ≡ some r
      → (ata : PublicKey) × (S.associated_address r.address
            (mint_of registered r.token_amount.token_id)
          ≡ some ata)
        × (get_elem? recipients k ≡ some (account_meta ata true false))
  token_account_of recipients k r e at =
      let (t, at_t, c) =
        All2-get_elem? (Carries registered d.mints) receivers d.transfers k r m.carried at in
      let (a, at_a, g) =
        All2-get_elem? (Gives (recipient_account S d.mints)) d.transfers recipients k t
          (each_account-Gives (recipient_account S d.mints) d.transfers recipients e) at_t in
      let (ata, found, same) =
        associated_account-key S r.address (mint_of registered r.token_amount.token_id) a
          (sym (recipient_account-carried S registered d.mints r t few c) ∙ g.gives) in
      (ata, found, at_a ∙ ap some (sym same))

  front : List AccountMeta
  front = map (λ k. account_meta k true false) d.mints

  middle : List AccountMeta
  middle = map (λ (t : TransferItem). account_meta t.recipient false false) d.transfers

  at_recipient :
      (registries recipients vaults : List AccountMeta) (k : ℕ) (x : AccountMeta)
      → length registries ≡ length d.mints
      → length receivers ≡ length d.transfers
      → get_elem? recipients k ≡ some x
      → get_elem?
          (front ++ (middle ++ (registries ++ (recipients ++ vaults))))
          (2 * length d.mints + length receivers + k)
        ≡ some x
  unfolding front middle
  at_recipient registries recipients vaults k x a n there =
      let e : 2 * length d.mints + length receivers + k
          ≡ length d.mints + (length receivers + (length d.mints + k)) =
        omega arith in
      ap (get_elem? (front ++ (middle ++ (registries ++ (recipients ++ vaults))))) e
      ∙ get_elem?-append_right front _ (length d.mints) _
          (length-map (λ k. account_meta k true false) d.mints)
      ∙ get_elem?-append_right middle _ (length receivers) _ (
          length-map (λ (t : TransferItem). account_meta t.recipient false false) d.transfers
          ∙ sym n)
      ∙ get_elem?-append_right registries _ (length d.mints) _ a
      ∙ get_elem?-append_left recipients vaults k x there

  layout :
      (registries recipients vaults out : List AccountMeta)
      → length registries ≡ length d.mints
      → length recipients ≡ length receivers
      → length vaults ≡ length d.mints
      → length receivers ≡ length d.transfers
      → each_account (recipient_account S d.mints) d.transfers ≡ ok recipients
      → front ++ (middle ++ (registries ++ (recipients ++ vaults))) ≡ out
      → Layout S registered receivers d out
  unfolding front middle
  layout registries recipients vaults out a b c n e same =
      subst (Layout S registered receivers d) same (record {
        count = omega (
          arith,
          length-append front (middle ++ (registries ++ (recipients ++ vaults))),
          length-append middle (registries ++ (recipients ++ vaults)),
          length-append registries (recipients ++ vaults),
          length-append recipients vaults,
          length-map (λ k. account_meta k true false) d.mints,
          length-map (λ (t : TransferItem). account_meta t.recipient false false) d.transfers,
          a,
          b,
          c,
          n,
        );
        token_account = λ k r at.
            let (ata, found, there) = token_account_of recipients k r e at in
            (
              ata,
              found,
              at_recipient registries recipients vaults k (account_meta ata true false) a n there,
            );
      })

  -- If at most 256 mints are derived and bridgeTransactionRemainingAccounts succeeds on them, it
  -- returns three accounts for each mint and two for each receiver; behind the mints, the recipients
  -- and the registry entries stand the writable associated accounts of the receivers' addresses for
  -- the mints of their tokens, in the receivers' order.
  pub bridge_transaction_remaining_accounts-Layout :
      (out : List AccountMeta)
      → bridge_transaction_remaining_accounts S vault program d.mints d.token_ids d.transfers
        ≡ ok out
      → Layout S registered receivers d out
  unfolding bridge_transaction_remaining_accounts front middle
  bridge_transaction_remaining_accounts-Layout out e =
      let (u, counted, e1) = bind-ok (guard (length d.token_ids == length d.mints) _) _ out e in
      let (registries, e_reg, e2) =
        bind-ok (each_account (registry_account S program) d.token_ids) _ out e1 in
      let (recipients, e_rec, e3) =
        bind-ok (each_account (recipient_account S d.mints) d.transfers) _ out e2 in
      let (vaults, e_vault, e4) =
        bind-ok (each_account (associated_account S vault) d.mints) _ out e3 in
      let n_reg =
        All2-length (Gives (registry_account S program)) d.token_ids registries
          (each_account-Gives (registry_account S program) d.token_ids registries e_reg) in
      let n_rec =
        All2-length (Gives (recipient_account S d.mints)) d.transfers recipients
          (each_account-Gives (recipient_account S d.mints) d.transfers recipients e_rec) in
      let n_vault =
        All2-length (Gives (associated_account S vault)) d.mints vaults
          (each_account-Gives (associated_account S vault) d.mints vaults e_vault) in
      let n_ids = All2-length (IsMintOf registered) d.mints d.token_ids m.tokens in
      let n_items = All2-length (Carries registered d.mints) receivers d.transfers m.carried in
      layout registries recipients vaults out (omega (arith, n_reg, n_ids))
        (omega (arith, n_rec, n_items)) (omega (arith, n_vault)) n_items e_rec (ok-injective e4)

  -- If at most 256 mints are derived and solana-go finds an address for all seeds and for all
  -- owners and mints, then bridgeTransactionRemainingAccounts returns accounts for them: it neither
  -- fails nor reads past the mints.
  pub bridge_transaction_remaining_accounts_total :
      ((seeds : List Bytes) (owner : PublicKey)
        → (k : PublicKey) × (S.program_address seeds owner ≡ some k))
      → ((owner mint : PublicKey) → (k : PublicKey) × (S.associated_address owner mint ≡ some k))
      → (out : List AccountMeta) × (bridge_transaction_remaining_accounts S vault program d.mints
            d.token_ids d.transfers
          ≡ ok out)
  unfolding bridge_transaction_remaining_accounts front middle
  bridge_transaction_remaining_accounts_total registry associated =
      let associates : (owner mint : PublicKey)
          → (a : AccountMeta) × (associated_account S owner mint ≡ ok a) =
        λ owner mint.
          let (k, e) = associated owner mint in (account_meta k true false, rw e refl) in
      let (registries, e1) = each_account_total (registry_account S program) d.token_ids (λ i x at.
        let (k, e) = registry (token_registry_seed ∷ put_uint16 x ∷ []) program in
        (account_meta k false false, rw e refl)) in
      let (recipients, e2) = each_account_total (recipient_account S d.mints) d.transfers (λ i t at.
        let (r, at_r, c) =
          All2-get_elem?_right (Carries registered d.mints) receivers d.transfers i t m.carried
            at in
        let (a, e) = associates r.address (mint_of registered r.token_amount.token_id) in
        (a, recipient_account-carried S registered d.mints r t few c ∙ e)) in
      let (vaults, e3) =
        each_account_total (associated_account S vault) d.mints (λ i x at. associates vault x) in
      let counted : (length d.token_ids == length d.mints) ≡ true =
        ground (arith, All2-length (IsMintOf registered) d.mints d.token_ids m.tokens) in
      (front ++ (middle ++ (registries ++ (recipients ++ vaults))), rw (counted, e1, e2, e3) refl)
