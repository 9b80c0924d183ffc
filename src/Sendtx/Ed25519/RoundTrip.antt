-- ===== src/Sendtx/Ed25519/RoundTrip.antt =====
-- About buildBatchedEd25519Instruction: its errors, what its entries verify, and
-- ExtractSolanaPayloadFromEd25519 (tracker/payload_parser.go) as a reader of its data.
use solana_infrastructure.Base.{
  subst, ℕ, ◌<◌, ◌≤◌, ◌≡◌, sym, ap, List, ◌∷◌, ◌++◌, All, Option, some, ok, length, get_elem?,
  get_elem?-append, ◌↔◌, err, arith,
}
use solana_infrastructure.Base.Bytes.{Bytes}
use solana_infrastructure.Tracker.Payload.{
  num_sigs, extract_solana_payload_from_ed25519, header_size,
}
use solana_infrastructure.Tracker.Payload.Signed.{Signs, extract_solana_payload_from_ed25519_iff}
use solana_infrastructure.Sendtx.Ed25519.{
  SignaturePair, build_batched_ed25519_instruction, no_signature_pairs, too_many_signature_pairs,
  empty_payload, no_signature_pairs, too_many_signature_pairs, empty_payload,
}
use solana_infrastructure.Sendtx.Ed25519.Entries.{Verifies, data_of, verifies}
use solana_infrastructure.Sendtx.Ed25519.Layout.{IsSized, split_at}

-- `get_elem? pairs i` is the pair of entry `i`.
record Pairing (raw : Bytes) (pairs : List SignaturePair) (payload : Bytes) (i : ℕ) : Type 0 where
  pub pair : SignaturePair
  pub at_index : get_elem? pairs i ≡ some pair
  pub verifies_pair : Verifies raw i pair payload

data_of-Verifies :
    (pairs : List SignaturePair) (payload : Bytes) (i : ℕ)
    → All IsSized pairs
    → length pairs ≤ 255
    → length payload < 65536
    → i < length pairs
    → Pairing (data_of pairs payload) pairs payload i
data_of-Verifies pairs payload i sized few short lt =
    let s = split_at pairs i lt in
    let cut : All IsSized (s.before ++ s.here ∷ s.after) = subst (All IsSized) s.joins sized in
    let count : length (s.before ++ s.here ∷ s.after) ≤ 255 =
      subst (λ (l : List SignaturePair). length l ≤ 255) s.joins few in
    subst (λ (l : List SignaturePair). Pairing (data_of l payload) l payload i) (sym s.joins)
      (subst
        (λ (j : ℕ).
          Pairing (data_of (s.before ++ s.here ∷ s.after) payload) (s.before ++ s.here ∷ s.after)
            payload j)
        s.counts
        (record {
          pair = s.here;
          at_index = get_elem?-append s.before s.here s.after;
          verifies_pair = verifies s.before s.here s.after payload cut count short;
        }))

built_data :
    (pairs : List SignaturePair) (payload raw : Bytes)
    → build_batched_ed25519_instruction pairs payload ≡ ok raw
    → (0 < length pairs)
      × (length pairs ≤ 255)
      × (0 < length payload)
      × (data_of pairs payload ≡ raw)
unfolding build_batched_ed25519_instruction
built_data pairs payload raw e = ground (arith, e)

-- If keys have 32 bytes, signatures 64 and the payload fewer than 65536, then entry `i` of the data
-- that buildBatchedEd25519Instruction returns verifies pair `i`: the ranges that it names lie in the
-- data and hold the pair's key, the pair's signature and the payload, and its three instruction
-- indexes name the instruction itself.
pub build_batched_ed25519_instruction-Verifies :
    (pairs : List SignaturePair) (payload raw : Bytes) (i : ℕ)
    → All IsSized pairs
    → length payload < 65536
    → build_batched_ed25519_instruction pairs payload ≡ ok raw
    → i < length pairs
    → (pair : SignaturePair) × (get_elem? pairs i ≡ some pair) × Verifies raw i pair payload
build_batched_ed25519_instruction-Verifies pairs payload raw i sized short e lt =
    let (_, few, _, same) = built_data pairs payload raw e in
    let p =
      subst (λ (r : Bytes). Pairing r pairs payload i) same
        (data_of-Verifies pairs payload i sized few short lt) in
    (p.pair, p.at_index, p.verifies_pair)

-- buildBatchedEd25519Instruction fails exactly for no pairs, for more than 255 pairs, and for an
-- empty payload, with the error of the first of these that holds; it never panics.
pub build_batched_ed25519_instruction_errors :
    (pairs : List SignaturePair) (payload : Bytes)
    → ((build_batched_ed25519_instruction pairs payload ≡ err no_signature_pairs)
        ↔ (length pairs ≡ 0))
      × ((build_batched_ed25519_instruction pairs payload
            ≡ err (too_many_signature_pairs (length pairs)))
          ↔ (255 < length pairs))
      × ((build_batched_ed25519_instruction pairs payload ≡ err empty_payload)
          ↔ ((0 < length pairs) × (length pairs ≤ 255) × (length payload ≡ 0)))
      × (((raw : Bytes) × (build_batched_ed25519_instruction pairs payload ≡ ok raw))
          ↔ ((0 < length pairs) × (length pairs ≤ 255) × (0 < length payload)))
unfolding build_batched_ed25519_instruction
build_batched_ed25519_instruction_errors pairs payload = (
  ground arith,
  ground arith,
  ground arith,
  (λ (raw, e). ground (arith, e), λ (a, b, c). (data_of pairs payload, ground arith)),
)

Signs-of :
    (raw payload : Bytes) (ix i : ℕ) (pair : SignaturePair)
    → Verifies raw i pair payload
    → Signs raw ix payload i
Signs-of raw payload ix i pair v = record {
  offsets = v.offsets;
  inside = v.inside;
  reads = v.reads;
  points = (
    ground (arith, v.own_signature),
    ground (arith, v.own_key),
    ground (arith, v.own_message),
    v.signature_inside,
    v.key_inside,
    v.message_inside,
    v.message,
  );
}

-- If keys have 32 bytes, signatures 64 and the payload fewer than 65536, and the payload is the text
-- of `p`, then ExtractSolanaPayloadFromEd25519 reads `p` back from the data that
-- buildBatchedEd25519Instruction returns, wherever the instruction stands in its transaction.
pub extract-build_batched :
    {P : Type 0} (unmarshal : Bytes → Option P) (pairs : List SignaturePair) (payload raw : Bytes)
    (ix : ℕ) (p : P)
    → All IsSized pairs
    → length payload < 65536
    → build_batched_ed25519_instruction pairs payload ≡ ok raw
    → unmarshal payload ≡ some p
    → extract_solana_payload_from_ed25519 unmarshal raw ix ≡ ok p
extract-build_batched unmarshal pairs payload raw ix p sized short e text =
    let (some_pairs, few, some_bytes, same) = built_data pairs payload raw e in
    (extract_solana_payload_from_ed25519_iff unmarshal raw ix p).1 (
      payload,
      record {
        count = length pairs;
        announced = ap num_sigs (sym same);
        has_header = subst (λ (r : Bytes). header_size ≤ length r) same (omega arith);
        has_signatures = some_pairs;
        all_sign = λ i lt.
            let v =
              subst (λ (r : Bytes). Pairing r pairs payload i) same
                (data_of-Verifies pairs payload i sized few short lt) in
            Signs-of raw payload ix i v.pair v.verifies_pair;
        text = text;
      },
    )
