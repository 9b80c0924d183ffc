-- ===== src/Wallet/Resolver/Cache.antt =====
-- About the resolver: the cache against what the fetcher answers.
use solana_infrastructure.Base.{
  ◌≡◌, ◌⊎◌, refl, sym, subst, List, [], ◌∷◌, ◌++◌, All, none, some, Result, ok, err, panic,
  ok-injective, Result-cases, inl, inr, arith,
}
use solana_infrastructure.Wallet.Keys.{PublicKey}
use solana_infrastructure.Wallet.Resolver.{
  ResolveError, fetch_failed, not_found, Tables, entries_of, look_up, Fetch, fetch_one, fetch_all,
  finish, resolve,
}
use solana_infrastructure.Wallet.Resolver.Faithful.{
  IsFaithful, Has, append-IsFaithful, look_up-IsFaithful, covered, fetch_all-IsFaithful,
}

finished :
    (cache found : Tables) (r : Result ResolveError Tables) (out : Tables)
    → (finish cache found r).1 ≡ ok out
    → (fetched : Tables) × (r ≡ ok fetched)
      × ((finish cache found r).0 ≡ fetched ++ cache)
      × (fetched ++ found ≡ out)
unfolding finish
finished cache found (ok fetched) out e = (fetched, refl, refl, ok-injective e)
finished cache found (err x) out e = absurd cc
finished cache found panic out e = absurd cc

no_tables : (fetch : Fetch) → IsFaithful fetch []
unfolding entries_of
no_tables fetch = record { agrees = λ addr keys e. absurd (cc) }

-- What Resolve leaves and answers when it succeeds.
pub record Resolves (fetch : Fetch) (cache' out : Tables) (addresses : List PublicKey)
    : Type 0 where
  pub cache_faithful : IsFaithful fetch cache'
  pub answer_faithful : IsFaithful fetch out
  pub answered : All (Has out) addresses
  pub cached : All (Has cache') addresses

-- If each entry of the cache is what the fetcher answers, then so is each entry of the cache that a
-- successful Resolve leaves and of its answer, and both have an entry for every address asked for.
pub resolve-Resolves :
    (fetch : Fetch) (cache : Tables) (addresses : List PublicKey) (out : Tables)
    → IsFaithful fetch cache
    → (resolve fetch cache addresses).1 ≡ ok out
    → Resolves fetch (resolve fetch cache addresses).0 out addresses
unfolding resolve
resolve-Resolves fetch cache addresses out f e =
    let (found, missing) = look_up cache addresses [] in
    let (fetched, whole, left, same) = finished cache found (fetch_all fetch missing []) out e in
    let (faithful, all) = fetch_all-IsFaithful fetch missing [] fetched whole (no_tables fetch) in
    let (in_out, in_cache) = covered fetch cache addresses [] fetched all in
    let answer =
      append-IsFaithful fetch fetched found faithful
        (look_up-IsFaithful fetch cache addresses [] f (no_tables fetch)) in
    record {
      cache_faithful =
          subst (IsFaithful fetch) (sym left) (append-IsFaithful fetch fetched cache faithful f);
      answer_faithful = subst (IsFaithful fetch) same answer;
      answered = subst (λ t. All (Has t) addresses) same in_out;
      cached = subst (λ t. All (Has t) addresses) (sym left) in_cache;
    }

unfinished :
    (cache found : Tables) (r : Result ResolveError Tables) (x : ResolveError)
    → (finish cache found r).1 ≡ err x
    → (r ≡ err x) × ((finish cache found r).0 ≡ cache)
unfolding finish
unfinished cache found (ok fetched) x e = absurd cc
unfinished cache found (err y) x e = (cc, refl)
unfinished cache found panic x e = absurd cc

-- The fetcher has no table for the address that the error names.
abbrev pub HasNone : Fetch → ResolveError → PublicKey → Type 0
HasNone fetch x addr =
    ((fetch addr ≡ none) × (x ≡ fetch_failed addr))
    ⊎ ((fetch addr ≡ some none) × (x ≡ not_found addr))

fetch_one_fails :
    (fetch : Fetch) (a : PublicKey) (x : ResolveError)
    → fetch_one fetch a ≡ err x
    → HasNone fetch x a
unfolding fetch_one
fetch_one_fails fetch a x e = ground (arith, e)

fetch_all_fails :
    (fetch : Fetch) (missing : List PublicKey) (fetched : Tables) (x : ResolveError)
    → fetch_all fetch missing fetched ≡ err x
    → (addr : PublicKey) × HasNone fetch x addr
unfolding fetch_all
fetch_all_fails fetch [] fetched x e = absurd cc
fetch_all_fails fetch (a ∷ missing) fetched x e = elim (Result-cases (fetch_one fetch a)) [
  | inl (keys, one) ↦ fetch_all_fails fetch missing ((a, keys) ∷ fetched) x (ground (arith, e, one))
  | inr (inl (y, failed)) ↦ (a, fetch_one_fails fetch a x (ground (arith, e, failed)))
  | inr (inr failed) ↦ absurd (ground (arith, e, failed))
]

-- When Resolve fails with an error, it leaves the cache as it was, and the fetcher has no table for
-- the address that the error names: it failed on it, or found nothing.
pub resolve_fails :
    (fetch : Fetch) (cache : Tables) (addresses : List PublicKey) (x : ResolveError)
    → (resolve fetch cache addresses).1 ≡ err x
    → ((resolve fetch cache addresses).0 ≡ cache) × ((addr : PublicKey) × HasNone fetch x addr)
unfolding resolve
resolve_fails fetch cache addresses x e =
    let (found, missing) = look_up cache addresses [] in
    let (failed, left) = unfinished cache found (fetch_all fetch missing []) x e in
    (left, fetch_all_fails fetch missing [] x failed)
