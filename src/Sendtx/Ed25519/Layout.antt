-- ===== src/Sendtx/Ed25519/Layout.antt =====
-- Where the parts of the data lie that buildBatchedEd25519Instruction lays out.
use solana_infrastructure.Base.{
  ℕ, zero, suc, ◌+◌, ◌*◌, ◌<◌, ◌≡◌, refl, sym, ap, List, [], ◌∷◌, ◌++◌, append_assoc, All, length,
  length-append, take, drop, take-append, drop-append, arith,
}
use solana_infrastructure.Base.Bytes.{Bytes}
use solana_infrastructure.Sendtx.Ed25519.{
  SignaturePair, pub_key_length, sig_length, ed25519_program_offsets_size, entry_bytes,
  entries_bytes, pairs_bytes,
}

-- Go's array types fix the lengths.
pub record IsSized (p : SignaturePair) : Type 0 where
  pub key_length : length p.pub_key ≡ pub_key_length
  pub signature_length : length p.signature ≡ sig_length

-- A list of pairs at `i`: those before, the pair, those after.
pub record SplitAt (pairs : List SignaturePair) (i : ℕ) : Type 0 where
  pub before : List SignaturePair
  pub here : SignaturePair
  pub after : List SignaturePair
  pub joins : pairs ≡ before ++ here ∷ after
  pub counts : length before ≡ i

pub split_at : (pairs : List SignaturePair) (i : ℕ) → i < length pairs → SplitAt pairs i
split_at [] i lt = absurd (omega arith)
split_at (p ∷ pairs) zero lt = record {
  before = [];
  here = p;
  after = pairs;
  joins = refl;
  counts = refl;
}
split_at (p ∷ pairs) (suc i) lt =
    let s = split_at pairs i (omega arith) in
    record {
      before = p ∷ s.before;
      here = s.here;
      after = s.after;
      joins = ap (◌∷◌ p) s.joins;
      counts = omega (arith, s.counts);
    }

pub length-entries_bytes :
    (m l k : ℕ) (pairs : List SignaturePair)
    → length (entries_bytes m l k pairs) ≡ length pairs * ed25519_program_offsets_size
unfolding entries_bytes entry_bytes
length-entries_bytes m l k [] = omega arith
length-entries_bytes m l k (p ∷ pairs) = omega (arith, length-entries_bytes m l (k + 96) pairs)

pub length-pairs_bytes :
    (pairs : List SignaturePair)
    → All IsSized pairs
    → length (pairs_bytes pairs) ≡ length pairs * (pub_key_length + sig_length)
unfolding pairs_bytes
length-pairs_bytes [] sized = omega arith
length-pairs_bytes (p ∷ pairs) (s, sized) = omega (
  arith,
  length-append p.pub_key (p.signature ++ pairs_bytes pairs),
  length-append p.signature (pairs_bytes pairs),
  s.key_length,
  s.signature_length,
  length-pairs_bytes pairs sized,
)

pub entries_bytes-append :
    (m l k : ℕ) (xs ys : List SignaturePair)
    → entries_bytes m l k (xs ++ ys)
      ≡ entries_bytes m l k xs ++ entries_bytes m l (k + length xs * 96) ys
unfolding entries_bytes
entries_bytes-append m l k [] ys = let e : k + 0 * 96 ≡ k = omega arith in rw e refl
entries_bytes-append m l k (x ∷ xs) ys =
    let e : k + 96 + length xs * 96 ≡ k + suc (length xs) * 96 = omega arith in
    rw (entries_bytes-append m l (k + 96) xs ys, e)
      (sym (append_assoc (entry_bytes k m l) (entries_bytes m l (k + 96) xs) _))

pub pairs_bytes-append :
    (xs ys : List SignaturePair) → pairs_bytes (xs ++ ys) ≡ pairs_bytes xs ++ pairs_bytes ys
unfolding pairs_bytes
pairs_bytes-append [] ys = refl
pairs_bytes-append (x ∷ xs) ys = simp (pairs_bytes-append xs ys, append_assoc)

-- The part of a string that stands between two others.
pub take-drop-middle :
    (xs ys zs : Bytes) (n k : ℕ)
    → length xs ≡ n
    → length ys ≡ k
    → take k (drop n (xs ++ (ys ++ zs))) ≡ ys
take-drop-middle xs ys zs n k a b = rw (drop-append n xs (ys ++ zs) a) (take-append k ys zs b)

pub All-split :
    (xs : List SignaturePair) (y : SignaturePair) (ys : List SignaturePair)
    → All IsSized (xs ++ y ∷ ys)
    → All IsSized xs × IsSized y × All IsSized ys
All-split [] y ys (p, rest) = (tt, p, rest)
All-split (x ∷ xs) y ys (p, rest) = let (a, b, c) = All-split xs y ys rest in ((p, a), b, c)
