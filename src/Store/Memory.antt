-- ===== src/Store/Memory.antt =====
-- A database in memory, which shows that the laws of `BoltLaws` can hold together, and runs.
use solana_infrastructure.Base.{
  ◌≡◌, refl, Bool, true, false, ◌||◌, List, [], ◌∷◌, Option, none, some, if◌then◌else◌, arith,
}
use solana_infrastructure.Base.Bytes.{Bytes, bytes_eq, bytes_eq→eq, bytes_eq_refl}
use solana_infrastructure.Store.Bolt.{Bolt, BoltLaws, BucketName, same_bucket, insert_entry}

pub record Memory : Type 0 where
  pub present : BucketName → Bool
  pub cells : BucketName → List (Bytes × Bytes)

unfoldable pub find_entry : Bytes → List (Bytes × Bytes) → Option Bytes
find_entry k [] = none
find_entry k ((j, v) ∷ l) = if bytes_eq k j then some v else find_entry k l

unfoldable pub drop_entry : Bytes → List (Bytes × Bytes) → List (Bytes × Bytes)
drop_entry k [] = []
drop_entry k ((j, v) ∷ l) = if bytes_eq k j then drop_entry k l else (j, v) ∷ drop_entry k l

find_entry-insert_entry :
    (k v j : Bytes) (l : List (Bytes × Bytes))
    → find_entry j (insert_entry k v l) ≡ (if bytes_eq j k then some v else find_entry j l)
unfolding find_entry insert_entry
find_entry-insert_entry k v j [] = refl
find_entry-insert_entry k v j ((i, w) ∷ l) = ground (
  arith,
  bytes_eq→eq i k,
  bytes_eq→eq j k,
  bytes_eq→eq j i,
  bytes_eq_refl k,
  find_entry-insert_entry k v j l,
)

find_entry-drop_entry :
    (k j : Bytes) (l : List (Bytes × Bytes))
    → find_entry j (drop_entry k l) ≡ (if bytes_eq j k then none else find_entry j l)
unfolding find_entry drop_entry
find_entry-drop_entry k j [] = ground arith
find_entry-drop_entry k j ((i, w) ∷ l) = ground (
  arith,
  bytes_eq→eq k i,
  bytes_eq→eq j k,
  bytes_eq→eq j i,
  bytes_eq_refl k,
  find_entry-drop_entry k j l,
)

-- Every commit succeeds, and so does a write to a bucket that is there.
abbrev pub memory : Bolt
memory = record {
  Tx = Memory;
  has_bucket = λ n t. t.present n;
  create_bucket = λ n t. some (record t { present = λ m. same_bucket m n || t.present m });
  get = λ n k t. find_entry k (t.cells n);
  put = λ n k v t. some (record t {
    cells = λ m. if same_bucket m n then insert_entry k v (t.cells m) else t.cells m;
  });
  delete = λ n k t.
      some
        (record t { cells = λ m. if same_bucket m n then drop_entry k (t.cells m) else t.cells m });
  entries = λ n t. t.cells n;
  commits = λ t. true;
}

pub memory-BoltLaws : BoltLaws memory
memory-BoltLaws = record {
  create_succeeds = λ n t. (_, refl);
  has_bucket-create = λ n m t t' e. ground arith;
  get-create = λ n m j t t' e. ground arith;
  entries-create = λ n m t t' e. ground arith;
  has_bucket-put = λ n m k v t t' e. ground arith;
  get-put = λ n m k v j t t' e. ground (arith, find_entry-insert_entry k v j (t.cells m));
  entries-put = λ n m k v t t' e. ground arith;
  put_succeeds = λ n k v t h1 h2 h3 h4. (_, refl);
  has_bucket-delete = λ n m k t t' e. ground arith;
  get-delete = λ n m k j t t' e. ground (arith, find_entry-drop_entry k j (t.cells m));
  delete_succeeds = λ n k t h. (_, refl);
}

-- An empty database, before the store is opened.
abbrev pub empty_memory : Memory
empty_memory = record { present = λ n. false; cells = λ n. [] }
