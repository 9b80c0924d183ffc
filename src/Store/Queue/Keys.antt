-- ===== src/Store/Queue/Keys.antt =====
-- The keys of the queue's bucket: an index is eight bytes long, no other key is.
use solana_infrastructure.Base.{
  ℕ, ◌<◌, ◌≡◌, ◌≢◌, sym, ap, ◌∙◌, inl, inr, false, [], append-nil, ok, length, ◌==◌, Bool-cases,
  arith,
}
use solana_infrastructure.Base.Bytes.{
  Bytes, u64_mod, bytes_eq, bytes_eq→eq, bytes_eq_refl, encode_uint64, decode_uint64,
  decode-encode_uint64, length-encode_uint64,
}

-- Two indexes have the same key only if they are the same index.
pub encode_uint64-injective :
    (i j : ℕ) → i < u64_mod → j < u64_mod → encode_uint64 i ≡ encode_uint64 j → i ≡ j
encode_uint64-injective i j hi hj e = cc (decoded i hi, decoded j hj, ap (decode_uint64 {E = ℕ}) e)
  where
    decoded : (v : ℕ) → v < u64_mod → decode_uint64 {E = ℕ} (encode_uint64 v) ≡ ok v
    decoded v h = rw append-nil at (decode-encode_uint64 {E = ℕ} v [] h)

pub bytes_eq-encode_uint64 :
    (i j : ℕ) → i < u64_mod → j < u64_mod → bytes_eq (encode_uint64 i) (encode_uint64 j) ≡ (i == j)
bytes_eq-encode_uint64 i j hi hj = ground (
  arith,
  bytes_eq→eq (encode_uint64 i) (encode_uint64 j),
  encode_uint64-injective i j hi hj,
  bytes_eq_refl (encode_uint64 j),
)

-- Texts of other lengths differ.
pub bytes_eq-length : (xs ys : Bytes) → length xs ≢ length ys → bytes_eq xs ys ≡ false
bytes_eq-length xs ys h = elim (Bool-cases (bytes_eq xs ys)) [
  | inl e ↦ absurd (h (ap length (bytes_eq→eq xs ys e)))
  | inr e ↦ e
]

-- So no index is one of the named keys.
pub index_key-ne : (i : ℕ) (key : Bytes) → length key ≢ 8 → bytes_eq (encode_uint64 i) key ≡ false
index_key-ne i key h =
    bytes_eq-length (encode_uint64 i) key (λ e. h (sym e ∙ length-encode_uint64 i))

pub key-ne_index : (i : ℕ) (key : Bytes) → length key ≢ 8 → bytes_eq key (encode_uint64 i) ≡ false
key-ne_index i key h = bytes_eq-length key (encode_uint64 i) (λ e. h (e ∙ length-encode_uint64 i))
