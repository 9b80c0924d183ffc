-- ===== src/Wallet/Resolver.antt =====
-- wallet/lookup_table.go: the cache of lookup tables.
pub mod Faithful
pub mod Cache
use solana_infrastructure.Base.{
  ℕ, Bool, true, false, List, [], ◌∷◌, ◌++◌, Option, none, some, Result, ok, err, panic,
}
use solana_infrastructure.Base.Bytes.{bytes_eq}
use solana_infrastructure.Wallet.Keys.{PublicKey}

pub data ResolveError : Type 0 where
  fetch_failed : PublicKey → ResolveError
  not_found : PublicKey → ResolveError

-- A map from tables to their keys, as a list in which the first entry of a table counts.
abbrev pub Tables : Type 0
Tables = List (PublicKey × List PublicKey)

unfoldable pub entries_of : Tables → PublicKey → Option (List PublicKey)
entries_of [] addr = none
entries_of ((a, keys) ∷ tables) addr = elim (bytes_eq a addr) [
  | true ↦ some keys
  | false ↦ entries_of tables addr
]

unfoldable pub remove : Tables → PublicKey → Tables
remove [] addr = []
remove ((a, keys) ∷ tables) addr = elim (bytes_eq a addr) [
  | true ↦ remove tables addr
  | false ↦ (a, keys) ∷ remove tables addr
]

-- The first loop of Resolve: what the cache has, and the addresses that it does not have.
unfoldable pub look_up : Tables → List PublicKey → Tables → Tables × List PublicKey
look_up cache [] out = (out, [])
look_up cache (addr ∷ addresses) out = elim (entries_of cache addr) [
  | some keys ↦ look_up cache addresses ((addr, keys) ∷ out)
  | none ↦ let rest = look_up cache addresses out in (rest.0, addr ∷ rest.1)
]

-- The fetcher's answer for a table: none is an error, `some none` the nil state.
abbrev pub Fetch : Type 0
Fetch = PublicKey → Option (Option (List PublicKey))

unfoldable pub fetch_one : Fetch → PublicKey → Result ResolveError (List PublicKey)
fetch_one fetch addr = elim (fetch addr) [
  | none ↦ err (fetch_failed addr)
  | some state ↦ elim state [ none ↦ err (not_found addr) | some keys ↦ ok keys ]
]

-- The second loop: the fetched tables, up to the first error.
unfoldable pub fetch_all : Fetch → List PublicKey → Tables → Result ResolveError Tables
fetch_all fetch [] fetched = ok fetched
fetch_all fetch (addr ∷ missing) fetched = elim (fetch_one fetch addr) [
  | ok keys ↦ fetch_all fetch missing ((addr, keys) ∷ fetched)
  | err e ↦ err e
  | panic ↦ panic
]

-- The cache and the answer after the second loop: `fetched` goes into both, its order does not
-- matter to a map.
unfoldable pub finish :
    Tables → Tables → Result ResolveError Tables → Tables × Result ResolveError Tables
finish cache out (ok fetched) = (fetched ++ cache, ok (fetched ++ out))
finish cache out (err e) = (cache, err e)
finish cache out panic = (cache, panic)

-- The cache that Resolve leaves, and its answer.
unfoldable pub resolve : Fetch → Tables → List PublicKey → Tables × Result ResolveError Tables
resolve fetch cache addresses =
    let (out, missing) = look_up cache addresses [] in finish cache out (fetch_all fetch missing [])

abbrev pub without_answer : Result ResolveError Tables → Result ResolveError (Unit {0})
without_answer (ok out) = ok tt
without_answer (err e) = err e
without_answer panic = panic

unfoldable pub preload : Fetch → Tables → List PublicKey → Tables × Result ResolveError (Unit {0})
unfolding resolve
preload fetch cache addresses =
    let (cache', r) = resolve fetch cache addresses in (cache', without_answer r)

unfoldable pub remove_all : Tables → List PublicKey → Tables
remove_all cache [] = cache
remove_all cache (addr ∷ addresses) = remove_all (remove cache addr) addresses

unfoldable pub invalidate : Tables → List PublicKey → Tables
invalidate cache [] = []
invalidate cache (addr ∷ addresses) = remove_all cache (addr ∷ addresses)
