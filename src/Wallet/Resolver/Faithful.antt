-- ===== src/Wallet/Resolver/Faithful.antt =====
-- Tables that agree with the fetcher: what the two loops of Resolve keep.
use solana_infrastructure.Base.{
  ◌≡◌, refl, sym, ◌∙◌, subst, List, [], ◌∷◌, ◌++◌, All, none, some, ok, ok-injective, Bool-cases,
  Option-cases, Result-cases, inl, inr, arith,
}
use solana_infrastructure.Base.Bytes.{bytes_eq, bytes_eq→eq, bytes_eq_refl}
use solana_infrastructure.Wallet.Keys.{PublicKey}
use solana_infrastructure.Wallet.Resolver.{Tables, entries_of, look_up, Fetch, fetch_one, fetch_all}

-- Each table's entry is what the fetcher answers for it.
pub record IsFaithful (fetch : Fetch) (tables : Tables) : Type 0 where
  pub agrees :
      (addr : PublicKey) (keys : List PublicKey)
      → entries_of tables addr ≡ some keys
      → fetch addr ≡ some (some keys)

-- The map has the table.
pub record Has (tables : Tables) (addr : PublicKey) : Type 0 where
  pub keys : List PublicKey
  pub found : entries_of tables addr ≡ some keys

Has-here :
    (addr : PublicKey) (keys : List PublicKey) (tables : Tables) → Has ((addr, keys) ∷ tables) addr
unfolding entries_of
Has-here addr keys tables = record { keys = keys; found = ground (arith, bytes_eq_refl addr) }

Has-cons :
    (a addr : PublicKey) (keys : List PublicKey) (tables : Tables)
    → Has tables addr
    → Has ((a, keys) ∷ tables) addr
unfolding entries_of
Has-cons a addr keys tables h = elim (Bool-cases (bytes_eq a addr)) [
  | inl same ↦ record { keys = keys; found = ground (arith, same) }
  | inr other ↦ record { keys = h.keys; found = ground (arith, other, h.found) }
]

Has-append_right : (xs ys : Tables) (addr : PublicKey) → Has ys addr → Has (xs ++ ys) addr
Has-append_right [] ys addr h = h
Has-append_right ((a, k) ∷ xs) ys addr h =
    Has-cons a addr k (xs ++ ys) (Has-append_right xs ys addr h)

entries_of-append_left :
    (xs ys : Tables) (addr : PublicKey) (keys : List PublicKey)
    → entries_of xs addr ≡ some keys
    → entries_of (xs ++ ys) addr ≡ some keys
unfolding entries_of
entries_of-append_left [] ys addr keys e = absurd cc
entries_of-append_left ((a, k) ∷ xs) ys addr keys e =
    ground (arith, e, entries_of-append_left xs ys addr keys)

entries_of-append_right :
    (xs ys : Tables) (addr : PublicKey)
    → entries_of xs addr ≡ none
    → entries_of (xs ++ ys) addr ≡ entries_of ys addr
unfolding entries_of
entries_of-append_right [] ys addr e = refl
entries_of-append_right ((a, k) ∷ xs) ys addr e =
    ground (arith, e, entries_of-append_right xs ys addr)

Has-append_left : (xs ys : Tables) (addr : PublicKey) → Has xs addr → Has (xs ++ ys) addr
Has-append_left xs ys addr h = record {
  keys = h.keys;
  found = entries_of-append_left xs ys addr h.keys h.found;
}

module _ (fetch : Fetch) where
  pub append-IsFaithful :
      (xs ys : Tables) → IsFaithful fetch xs → IsFaithful fetch ys → IsFaithful fetch (xs ++ ys)
  append-IsFaithful xs ys f g = record {
    agrees = λ addr keys e. elim (Option-cases (entries_of xs addr)) [
      | inl missing ↦ g.agrees addr keys (sym (entries_of-append_right xs ys addr missing) ∙ e)
      | inr (k, there) ↦
          f.agrees addr keys (there ∙ sym (entries_of-append_left xs ys addr k there) ∙ e)
    ];
  }

  cons-IsFaithful :
      (addr : PublicKey) (keys : List PublicKey) (tables : Tables)
      → fetch addr ≡ some (some keys)
      → IsFaithful fetch tables
      → IsFaithful fetch ((addr, keys) ∷ tables)
  unfolding entries_of
  cons-IsFaithful addr keys tables e f = record {
    agrees = λ a k h. elim (Bool-cases (bytes_eq addr a)) [
      | inl same ↦ ground (arith, h, e, same, bytes_eq→eq addr a same)
      | inr other ↦ f.agrees a k (ground (arith, h, other))
    ];
  }

  -- The answer of one fetch.
  fetch_one-ok :
      (addr : PublicKey) (keys : List PublicKey)
      → fetch_one fetch addr ≡ ok keys
      → fetch addr ≡ some (some keys)
  unfolding fetch_one
  fetch_one-ok addr keys e = ground (arith, e)

  missed :
      (cache : Tables) (a : PublicKey) (addresses : List PublicKey) (out : Tables)
      → entries_of cache a ≡ none
      → look_up cache (a ∷ addresses) out
        ≡ ((look_up cache addresses out).0, a ∷ (look_up cache addresses out).1)
  unfolding look_up
  missed cache a addresses out e = ground (arith, e)

  hit :
      (cache : Tables) (a : PublicKey) (addresses : List PublicKey) (out : Tables)
      (keys : List PublicKey)
      → entries_of cache a ≡ some keys
      → look_up cache (a ∷ addresses) out ≡ look_up cache addresses ((a, keys) ∷ out)
  unfolding look_up
  hit cache a addresses out keys e = ground (arith, e)

  fetched_one :
      (a : PublicKey) (missing : List PublicKey) (fetched r : Tables)
      → fetch_all fetch (a ∷ missing) fetched ≡ ok r
      → (keys : List PublicKey) × (fetch_one fetch a ≡ ok keys)
        × (fetch_all fetch missing ((a, keys) ∷ fetched) ≡ ok r)
  unfolding fetch_all
  fetched_one a missing fetched r e = elim (Result-cases (fetch_one fetch a)) [
    | inl (keys, one) ↦ (keys, one, ground (arith, e, one))
    | inr (inl (x, failed)) ↦ absurd (ground (arith, e, failed))
    | inr (inr failed) ↦ absurd (ground (arith, e, failed))
  ]

  look_up_keeps :
      (cache : Tables) (addresses : List PublicKey) (out : Tables) (addr : PublicKey)
      → Has out addr
      → Has (look_up cache addresses out).0 addr
  unfolding look_up
  look_up_keeps cache [] out addr h = h
  look_up_keeps cache (a ∷ addresses) out addr h = elim (Option-cases (entries_of cache a)) [
    | inl missing ↦
        subst (λ (r : Tables × List PublicKey). Has r.0 addr)
          (sym (missed cache a addresses out missing)) (look_up_keeps cache addresses out addr h)
    | inr (k, there) ↦
        subst (λ (r : Tables × List PublicKey). Has r.0 addr)
          (sym (hit cache a addresses out k there))
          (look_up_keeps cache addresses ((a, k) ∷ out) addr (Has-cons a addr k out h))
  ]

  pub look_up-IsFaithful :
      (cache : Tables) (addresses : List PublicKey) (out : Tables)
      → IsFaithful fetch cache
      → IsFaithful fetch out
      → IsFaithful fetch (look_up cache addresses out).0
  unfolding look_up
  look_up-IsFaithful cache [] out f g = g
  look_up-IsFaithful cache (a ∷ addresses) out f g = elim (Option-cases (entries_of cache a)) [
    | inl missing ↦
        subst (λ (r : Tables × List PublicKey). IsFaithful fetch r.0)
          (sym (missed cache a addresses out missing)) (look_up-IsFaithful cache addresses out f g)
    | inr (k, there) ↦
        subst (λ (r : Tables × List PublicKey). IsFaithful fetch r.0)
          (sym (hit cache a addresses out k there))
          (look_up-IsFaithful cache addresses ((a, k) ∷ out) f
            (cons-IsFaithful a k out (f.agrees a k there) g))
  ]

  -- What the fetched tables have together with those found, and with the cache.
  pub covered :
      (cache : Tables) (addresses : List PublicKey) (out fetched : Tables)
      → All (Has fetched) (look_up cache addresses out).1
      → All (Has (fetched ++ (look_up cache addresses out).0)) addresses
        × All (Has (fetched ++ cache)) addresses
  unfolding look_up
  covered cache [] out fetched h = (tt, tt)
  covered cache (a ∷ addresses) out fetched h = elim (Option-cases (entries_of cache a)) [
    | inl missing ↦
        let e = missed cache a addresses out missing in
        let (here, more) = subst (λ (r : Tables × List PublicKey). All (Has fetched) r.1) e h in
        let (in_out, in_cache) = covered cache addresses out fetched more in
        (
          subst (λ (r : Tables × List PublicKey). All (Has (fetched ++ r.0)) (a ∷ addresses))
              (sym e) (Has-append_left fetched (look_up cache addresses out).0 a here, in_out),
          (Has-append_left fetched cache a here, in_cache),
        )
    | inr (k, there) ↦
        let e = hit cache a addresses out k there in
        let more = subst (λ (r : Tables × List PublicKey). All (Has fetched) r.1) e h in
        let (in_out, in_cache) = covered cache addresses ((a, k) ∷ out) fetched more in
        (
          subst (λ (r : Tables × List PublicKey). All (Has (fetched ++ r.0)) (a ∷ addresses))
              (sym e)
              (
                Has-append_right fetched (look_up cache addresses ((a, k) ∷ out)).0 a
                    (look_up_keeps cache addresses ((a, k) ∷ out) a (Has-here a k out)),
                in_out,
              ),
          (Has-append_right fetched cache a (record { keys = k; found = there }), in_cache),
        )
  ]

  -- The second loop fetches every missing table, and keeps what it has.
  fetch_all_keeps :
      (missing : List PublicKey) (fetched r : Tables) (addr : PublicKey)
      → fetch_all fetch missing fetched ≡ ok r
      → Has fetched addr
      → Has r addr
  unfolding fetch_all
  fetch_all_keeps [] fetched r addr e h = subst (λ t. Has t addr) (ok-injective e) h
  fetch_all_keeps (a ∷ missing) fetched r addr e h =
      let (keys, one, rest) = fetched_one a missing fetched r e in
      fetch_all_keeps missing ((a, keys) ∷ fetched) r addr rest (Has-cons a addr keys fetched h)

  pub fetch_all-IsFaithful :
      (missing : List PublicKey) (fetched r : Tables)
      → fetch_all fetch missing fetched ≡ ok r
      → IsFaithful fetch fetched
      → IsFaithful fetch r × All (Has r) missing
  unfolding fetch_all
  fetch_all-IsFaithful [] fetched r e f = (subst (IsFaithful fetch) (ok-injective e) f, tt)
  fetch_all-IsFaithful (a ∷ missing) fetched r e f =
      let (keys, one, rest) = fetched_one a missing fetched r e in
      let (faithful, all) =
        fetch_all-IsFaithful missing ((a, keys) ∷ fetched) r rest
          (cons-IsFaithful a keys fetched (fetch_one-ok a keys one) f) in
      (
        faithful,
        (fetch_all_keeps missing ((a, keys) ∷ fetched) r a rest (Has-here a keys fetched), all),
      )
