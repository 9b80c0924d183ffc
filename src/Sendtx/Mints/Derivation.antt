-- ===== src/Sendtx/Mints/Derivation.antt =====
-- About deriveBridgeMintsAndTransfers: what the mints, their indexes and the transfers say of the
-- receivers.
use solana_infrastructure.Base.{
  ℕ, ◌%◌, ◌≡◌, ◌≢◌, refl, sym, ap, ◌∙◌, subst, false, List, [], ◌∷◌, ◌++◌, append_assoc, append-nil,
  Option, none, some, ok, map_err, bind-ok, length, get_elem?, get_elem?-append,
  get_elem?-append_left, get_elem?-snoc_cases, All2, All2-snoc, All2-map, Bool-cases, inl, inr,
  arith,
}
use solana_infrastructure.Base.Bytes.{bytes_eq, bytes_eq→eq, bytes_eq_refl}
use solana_infrastructure.Wallet.Keys.{PublicKey, Solana}
use solana_infrastructure.Wallet.Address.{validate_address}
use solana_infrastructure.Sendtx.Data.{PayloadReceiver, TransferItem, TokenRegistry}
use solana_infrastructure.Sendtx.Mints.{
  Derived, nothing_derived, mint_of, index_of, next_index, item, add_transfer, derive_one,
  derive_all, derive_bridge_mints_and_transfers,
}

-- A transfer for a receiver: its mint is the one of the receiver's token, at a position that agrees
-- with the transfer's index modulo 256.
pub record Carries (registered : List TokenRegistry) (mints : List PublicKey) (r : PayloadReceiver)
    (t : TransferItem) : Type 0 where
  pub to : t.recipient ≡ r.address
  pub sum : t.amount ≡ r.token_amount.amount
  pub position : ℕ
  pub mint_there : get_elem? mints position ≡ some (mint_of registered r.token_amount.token_id)
  pub index : t.mint_index ≡ position % 256

-- The mint of a token that the registry has, or the zero key.
pub record IsMintOf (registered : List TokenRegistry) (mint : PublicKey) (token_id : ℕ)
    : Type 0 where
  pub agrees : mint ≡ mint_of registered token_id

-- What the loop's variables say after some receivers.
pub record Matches (registered : List TokenRegistry) (receivers : List PayloadReceiver)
    (d : Derived) : Type 0 where
  pub distinct :
      (i j : ℕ) (mint : PublicKey)
      → get_elem? d.mints i ≡ some mint
      → get_elem? d.mints j ≡ some mint
      → i ≡ j
  pub tokens : All2 (IsMintOf registered) d.mints d.token_ids
  pub carried : All2 (Carries registered d.mints) receivers d.transfers

-- `mintIndex` has the position of every mint, modulo 256, and nothing else.
record Indexes (d : Derived) : Type 0 where
  pub known :
      (mint : PublicKey) (i : ℕ)
      → index_of d.mint_index mint ≡ some i
      → (j : ℕ) × (get_elem? d.mints j ≡ some mint) × (i ≡ j % 256)
  pub unknown :
      (mint : PublicKey) (j : ℕ)
      → index_of d.mint_index mint ≡ none
      → get_elem? d.mints j ≢ some mint

Carries-append :
    (registered : List TokenRegistry) (mints more : List PublicKey) (r : PayloadReceiver)
    (t : TransferItem)
    → Carries registered mints r t
    → Carries registered (mints ++ more) r t
Carries-append registered mints more r t c = record {
  to = c.to;
  sum = c.sum;
  position = c.position;
  mint_there = get_elem?-append_left mints more c.position _ c.mint_there;
  index = c.index;
}

-- A mint that the map does not have is new.
add_mint-distinct :
    (mints : List PublicKey) (mint : PublicKey)
    → ((j : ℕ) → get_elem? mints j ≢ some mint)
    → ((i j : ℕ) (m : PublicKey) → get_elem? mints i ≡ some m → get_elem? mints j ≡ some m → i ≡ j)
    → (i j : ℕ) (m : PublicKey) → get_elem? (mints ++ mint ∷ []) i ≡ some m
    → get_elem? (mints ++ mint ∷ []) j ≡ some m
    → i ≡ j
add_mint-distinct mints mint fresh distinct i j m a b =
    elim (get_elem?-snoc_cases mints mint i m a) [
      | inl old ↦ elim (get_elem?-snoc_cases mints mint j m b) [
        | inl old2 ↦ distinct i j m old old2
        | inr (at2, new2) ↦ absurd (fresh i (old ∙ ap some (sym new2)))
      ]
      | inr (at, new) ↦ elim (get_elem?-snoc_cases mints mint j m b) [
        | inl old2 ↦ absurd (fresh j (old2 ∙ ap some (sym new)))
        | inr (at2, new2) ↦ at ∙ sym at2
      ]
    ]

add_transfer-Indexes :
    (r : PayloadReceiver) (mint : PublicKey) (d : Derived) (o : Option ℕ)
    → index_of d.mint_index mint ≡ o
    → Indexes d
    → Indexes (add_transfer r mint d o)
unfolding add_transfer index_of
add_transfer-Indexes r mint d (some i) e x = record { known = x.known; unknown = x.unknown }
add_transfer-Indexes r mint d none e x = record {
  known = λ m i h. elim (Bool-cases (bytes_eq mint m)) [
    | inl same ↦ (
      length d.mints,
      get_elem?-append d.mints mint [] ∙ ap some (bytes_eq→eq mint m same),
      ground (arith, h, same),
    )
    | inr other ↦
        let (j, there, at) = x.known m i (ground (arith, h, other)) in
        (j, get_elem?-append_left d.mints (mint ∷ []) j m there, at)
  ];
  unknown = λ m j h there. elim (Bool-cases (bytes_eq mint m)) [
    | inl same ↦ absurd (ground (arith, h, same))
    | inr other ↦ elim (get_elem?-snoc_cases d.mints mint j m there) [
      | inl old ↦ x.unknown m j (ground (arith, h, other)) old
      | inr (at, new) ↦
          absurd (ground (arith, other, bytes_eq_refl m, ap (λ (k : PublicKey). bytes_eq k m) new))
    ]
  ];
}

add_transfer-Matches :
    (registered : List TokenRegistry) (done : List PayloadReceiver) (r : PayloadReceiver)
    (d : Derived) (o : Option ℕ)
    → index_of d.mint_index (mint_of registered r.token_amount.token_id) ≡ o
    → Indexes d
    → Matches registered done d
    → Matches registered
        (done ++ r ∷ [])
        (add_transfer r (mint_of registered r.token_amount.token_id) d o)
unfolding add_transfer
add_transfer-Matches registered done r d (some i) e x m =
    let (j, there, at) = x.known (mint_of registered r.token_amount.token_id) i e in
    record {
      distinct = m.distinct;
      tokens = m.tokens;
      carried =
          All2-snoc (Carries registered d.mints) done d.transfers r (item r i) m.carried
            (record { to = refl; sum = refl; position = j; mint_there = there; index = at });
    }
add_transfer-Matches registered done r d none e x m =
    let mint = mint_of registered r.token_amount.token_id in
    record {
      distinct = add_mint-distinct d.mints mint (λ j. x.unknown mint j e) m.distinct;
      tokens =
          All2-snoc (IsMintOf registered) d.mints d.token_ids mint r.token_amount.token_id m.tokens
            (record { agrees = refl });
      carried =
          All2-snoc (Carries registered (d.mints ++ mint ∷ [])) done d.transfers r
            (item r (next_index d))
            (All2-map (Carries registered d.mints) (Carries registered (d.mints ++ mint ∷ [])) done
              d.transfers (Carries-append registered d.mints (mint ∷ [])) m.carried)
            (record {
              to = refl;
              sum = refl;
              position = length d.mints;
              mint_there = get_elem?-append d.mints mint [];
              index = refl;
            });
    }

derive_all-Matches :
    (S : Solana) (registered : List TokenRegistry) (done receivers : List PayloadReceiver)
    (d last : Derived)
    → derive_all S registered receivers d ≡ ok last
    → Indexes d
    → Matches registered done d
    → Matches registered (done ++ receivers) last
unfolding derive_all derive_one
derive_all-Matches S registered done [] d last e x m = ground (arith, e, m, append-nil done)
derive_all-Matches S registered done (r ∷ receivers) d last e x m =
    let (next, one, rest) =
      bind-ok (derive_one S registered r d) (derive_all S registered receivers) last e in
    let (u, valid, same) = bind-ok (map_err _ (validate_address S _ false)) _ next one in
    let o = index_of d.mint_index (mint_of registered r.token_amount.token_id) in
    let there : next ≡ add_transfer r (mint_of registered r.token_amount.token_id) d o = cc in
    subst (λ (l : List PayloadReceiver). Matches registered l last)
      (append_assoc done (r ∷ []) receivers)
      (derive_all-Matches S registered (done ++ r ∷ []) receivers next last rest
        (subst Indexes (sym there) (add_transfer-Indexes r _ d o refl x))
        (subst (Matches registered (done ++ r ∷ [])) (sym there)
          (add_transfer-Matches registered done r d o refl x m)))

-- When deriveBridgeMintsAndTransfers succeeds, the mints are pairwise different, each with the id of
-- a token of that mint, and there is one transfer for each receiver, in the receivers' order, with
-- its address and amount and the position, modulo 256, of the mint of the receiver's token.
pub derive_bridge_mints_and_transfers-Matches :
    (S : Solana) (receivers : List PayloadReceiver) (registered : List TokenRegistry) (d : Derived)
    → derive_bridge_mints_and_transfers S receivers registered ≡ ok d
    → Matches registered receivers d
unfolding derive_bridge_mints_and_transfers index_of
derive_bridge_mints_and_transfers-Matches S receivers registered d e =
    derive_all-Matches S registered [] receivers nothing_derived d e
      (record { known = λ m i h. absurd (cc); unknown = λ m j h there. cc })
      (record { distinct = λ i j m a b. absurd (cc); tokens = tt; carried = tt })
