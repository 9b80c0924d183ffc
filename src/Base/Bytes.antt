-- ===== src/Base/Bytes.antt =====
-- Byte strings as lists of numbers: comparison, and the fixed-width integers of encoding/binary.
use solana_infrastructure.Base.{
  ℕ, ◌+◌, ◌*◌, ◌/◌, ◌%◌, ◌^◌, ◌<◌, ◌≡◌, refl, sym, ap, ◌∙◌, ◌↔◌, Bool, true, false, ◌&&◌, ◌||◌, ltb,
  List, [], ◌∷◌, ◌++◌, length, Result, ok, panic, ◌==◌, arith,
}

abbrev pub Bytes : Type 0
Bytes = List ℕ

abbrev pub u64_mod : ℕ
u64_mod = 18446744073709551616

-- `bytes.Equal`, and `==` on arrays of bytes.
unfoldable pub bytes_eq : Bytes → Bytes → Bool
bytes_eq [] [] = true
bytes_eq [] (y ∷ ys) = false
bytes_eq (x ∷ xs) [] = false
bytes_eq (x ∷ xs) (y ∷ ys) = bytes_eq xs ys && x == y

pub bytes_eq→eq : (xs ys : Bytes) → bytes_eq xs ys ≡ true → xs ≡ ys
unfolding bytes_eq
bytes_eq→eq [] [] h = refl
bytes_eq→eq [] (y ∷ ys) h = cc
bytes_eq→eq (x ∷ xs) [] h = cc
bytes_eq→eq (x ∷ xs) (y ∷ ys) h = ground (arith, bytes_eq→eq xs ys)

pub bytes_eq_refl : (xs : Bytes) → bytes_eq xs xs ≡ true
unfolding bytes_eq
bytes_eq_refl [] = refl
bytes_eq_refl (x ∷ xs) = ground (arith, bytes_eq_refl xs)

pub bytes_eq_iff : (xs ys : Bytes) → (bytes_eq xs ys ≡ true) ↔ (xs ≡ ys)
bytes_eq_iff xs ys = (bytes_eq→eq xs ys, λ e. ap (bytes_eq xs) (sym e) ∙ bytes_eq_refl xs)

-- The order of byte strings, `bytes.Compare(xs, ys) < 0`.
unfoldable pub bytes_less : Bytes → Bytes → Bool
bytes_less [] [] = false
bytes_less [] (y ∷ ys) = true
bytes_less (x ∷ xs) [] = false
bytes_less (x ∷ xs) (y ∷ ys) = ltb x y || x == y && bytes_less xs ys

-- `binary.LittleEndian.PutUint16` of `uint16(v)`.
abbrev pub put_uint16 : ℕ → Bytes
put_uint16 v = (v % 256) ∷ (v / 256 % 256) ∷ []

-- `binary.BigEndian.PutUint64` into eight bytes.
unfoldable pub encode_uint64 : ℕ → Bytes
encode_uint64 v =
    (v / 2 ^ 56 % 256)
    ∷ (v / 2 ^ 48 % 256)
    ∷ (v / 2 ^ 40 % 256)
    ∷ (v / 2 ^ 32 % 256)
    ∷ (v / 2 ^ 24 % 256)
    ∷ (v / 2 ^ 16 % 256)
    ∷ (v / 2 ^ 8 % 256)
    ∷ (v % 256)
    ∷ []

-- `binary.BigEndian.Uint64` reads the first eight bytes, and panics on fewer.
unfoldable pub decode_uint64 {ℓ} : {E : Type ℓ} → Bytes → Result E ℕ
decode_uint64 (a ∷ b ∷ c ∷ d ∷ e ∷ f ∷ g ∷ h ∷ rest) =
    ok (a * 2 ^ 56 + b * 2 ^ 48 + c * 2 ^ 40 + d * 2 ^ 32 + e * 2 ^ 24 + f * 2 ^ 16 + g * 2 ^ 8 + h)
decode_uint64 _ = panic

pub decode-encode_uint64 {ℓ} :
    {E : Type ℓ} (v : ℕ) (rest : Bytes)
    → v < u64_mod
    → decode_uint64 {E = E} (encode_uint64 v ++ rest) ≡ ok v
unfolding encode_uint64 decode_uint64
decode-encode_uint64 v rest h = ap ok (omega arith)

pub length-encode_uint64 : (v : ℕ) → length (encode_uint64 v) ≡ 8
unfolding encode_uint64
length-encode_uint64 v = refl
