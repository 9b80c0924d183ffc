-- ===== src/Store/Events/Order.antt =====
-- The order of a bucket's keys, and of the numbers that they encode.
use solana_infrastructure.Base.{
  ℕ, suc, ◌+◌, ◌/◌, ◌%◌, ◌^◌, ◌<◌, ◌≤◌, ◌≡◌, Bool, false, ◌&&◌, ◌||◌, List, [], ◌∷◌, ◌++◌, ltb,
  length, ◌==◌, arith,
}
use solana_infrastructure.Base.Bytes.{Bytes, u64_mod, bytes_less, encode_uint64}
use solana_infrastructure.Store.Bolt.{insert_entry}
use solana_infrastructure.Store.Queue.Keys.{bytes_eq-encode_uint64}

-- One digit of the comparison, where the digits above it agree.
digit_step :
    (a c : ℕ) (rest : Bool)
    → c ≤ a
    → a / 256 ≡ c / 256
    → (a ≡ c → rest ≡ false)
    → (ltb (a % 256) (c % 256) || a % 256 == c % 256 && rest) ≡ false
digit_step a c rest le above below = ground arith

-- A larger number never has the smaller key.
pub bytes_less-encode_uint64 :
    (i j : ℕ) → i < j → j < u64_mod → bytes_less (encode_uint64 j) (encode_uint64 i) ≡ false
unfolding encode_uint64 bytes_less
bytes_less-encode_uint64 i j lt fits =
    digit_step (j / 2 ^ 56) (i / 2 ^ 56) _ (omega arith) (omega arith) λ e1.
      digit_step (j / 2 ^ 48) (i / 2 ^ 48) _ (omega arith) (omega arith) λ e2.
        digit_step (j / 2 ^ 40) (i / 2 ^ 40) _ (omega arith) (omega arith) λ e3.
          digit_step (j / 2 ^ 32) (i / 2 ^ 32) _ (omega arith) (omega arith) λ e4.
            digit_step (j / 2 ^ 24) (i / 2 ^ 24) _ (omega arith) (omega arith) λ e5.
              digit_step (j / 2 ^ 16) (i / 2 ^ 16) _ (omega arith) (omega arith) λ e6.
                digit_step (j / 2 ^ 8) (i / 2 ^ 8) _ (omega arith) (omega arith)
                  λ e7. digit_step j i _ (omega arith) (omega arith) λ e8. absurd (omega arith)

-- The entries of consecutive ids from `i` on.
abbrev pub rows : ℕ → List Bytes → List (Bytes × Bytes)
rows i [] = []
rows i (v ∷ vs) = (encode_uint64 i, v) ∷ rows (suc i) vs

-- The entry of the next id goes to the end.
pub insert_entry-rows :
    (i n : ℕ) (v : Bytes) (vs : List Bytes)
    → n ≡ i + length vs
    → n < u64_mod
    → insert_entry (encode_uint64 n) v (rows i vs) ≡ rows i (vs ++ v ∷ [])
unfolding insert_entry
insert_entry-rows i n v [] e fits = let same : n ≡ i = omega arith in rw same
insert_entry-rows i n v (w ∷ vs) e fits = ground (
  arith,
  bytes_eq-encode_uint64 i n,
  bytes_less-encode_uint64 i n,
  insert_entry-rows (suc i) n v vs,
)
