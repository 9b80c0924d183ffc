-- ===== src/Tracker/Payload/Signed.antt =====
-- About `ExtractSolanaPayloadFromEd25519`: what the parser accepts.
use native.Mathlib.Decide.{ℕ_discrete}
use solana_infrastructure.Base.{
  bind-ok, subst, ◌>>=◌, ℕ, zero, suc, ◌+◌, ◌<◌, ◌≤◌, ◌≡◌, ◌↔◌, refl, sym, ap, ◌∙◌, true, [], ◌∷◌,
  Option, none, some, ok, guard, or_fail, length, drop, length-drop, leb, arith, Bool-cases, inl,
  inr,
}
use solana_infrastructure.Base.Bytes.{Bytes, bytes_eq→eq, bytes_eq_refl}
use solana_infrastructure.Tracker.Payload.{
  Offsets, header_size, offsets_struct_len, sig_length, pub_key_length, little_endian_uint16, field,
  read_offsets, is_own_instruction, entry_at, message_of, check_offsets, check_entry, check_entries,
  num_sigs, bytes_or_empty, extract_solana_payload_from_ed25519, unmarshal_error,
}

-- The offsets lie in the data and name no other instruction, and the message is `m`.
abbrev pub Points : Bytes → ℕ → Bytes → Offsets → Type 0
Points raw ix m o =
    (is_own_instruction ix o.sig_ix ≡ true)
    × (is_own_instruction ix o.pub_key_ix ≡ true)
    × (is_own_instruction ix o.msg_ix ≡ true)
    × (o.sig_offset + sig_length ≤ length raw)
    × (o.pub_key_offset + pub_key_length ≤ length raw)
    × (o.msg_offset + o.msg_size ≤ length raw)
    × (message_of raw o ≡ m)

-- Entry `i` is in the data, and signs `m`.
pub record Signs (raw : Bytes) (ix : ℕ) (m : Bytes) (i : ℕ) : Type 0 where
  pub offsets : Offsets
  pub inside : entry_at i + offsets_struct_len ≤ length raw
  pub reads : read_offsets raw (entry_at i) ≡ ok offsets
  pub points : Points raw ix m offsets

-- The message before an entry is none, or the entry's own.
abbrev Agrees : Option Bytes → Bytes → Type 0
Agrees none m = Unit {0}
Agrees (some s) m = s ≡ m

check_offsets_sound :
    (raw : Bytes) (ix i : ℕ) (shared : Option Bytes) (o : Offsets) (m : Bytes)
    → check_offsets raw ix i shared o ≡ ok m
    → Points raw ix m o × Agrees shared m
unfolding check_offsets
check_offsets_sound raw ix i none o m e = ground arith
check_offsets_sound raw ix i (some s) o m e = ground (arith, bytes_eq→eq s (message_of raw o))

check_offsets_complete :
    (raw : Bytes) (ix i : ℕ) (shared : Option Bytes) (o : Offsets) (m : Bytes)
    → Points raw ix m o
    → Agrees shared m
    → check_offsets raw ix i shared o ≡ ok m
unfolding check_offsets
check_offsets_complete raw ix i none o m p a = ground (arith, p)
check_offsets_complete raw ix i (some s) o m p a = ground (arith, p, bytes_eq_refl m)

-- Two bytes within the data are read.
little_endian_uint16-reads : (l : Bytes) → 2 ≤ length l → (n : ℕ) × (little_endian_uint16 l ≡ ok n)
unfolding little_endian_uint16
little_endian_uint16-reads [] le = absurd (omega arith)
little_endian_uint16-reads (a ∷ []) le = absurd (omega arith)
little_endian_uint16-reads (a ∷ b ∷ rest) le = (_, refl)

field-reads :
    (raw : Bytes) (entry offset : ℕ)
    → entry + offset + 2 ≤ length raw
    → (n : ℕ) × (field raw entry offset ≡ ok n)
unfolding field
field-reads raw entry offset le =
    little_endian_uint16-reads (drop (entry + offset) raw)
      (omega (arith, length-drop (entry + offset) raw))

read_offsets-reads :
    (raw : Bytes) (entry : ℕ)
    → entry + offsets_struct_len ≤ length raw
    → (o : Offsets) × (read_offsets raw entry ≡ ok o)
unfolding read_offsets
read_offsets-reads raw entry le =
    let (a0, e0) = field-reads raw entry 0 (omega arith) in
    let (a4, e4) = field-reads raw entry 4 (omega arith) in
    let (a8, e8) = field-reads raw entry 8 (omega arith) in
    let (a10, e10) = field-reads raw entry 10 (omega arith) in
    let (a2, e2) = field-reads raw entry 2 (omega arith) in
    let (a6, e6) = field-reads raw entry 6 (omega arith) in
    let (a12, e12) = field-reads raw entry 12 (omega arith) in
    (
      record {
        sig_offset = a0;
        sig_ix = a2;
        pub_key_offset = a4;
        pub_key_ix = a6;
        msg_offset = a8;
        msg_size = a10;
        msg_ix = a12;
      },
      rw (e0, e4, e8, e10, e2, e6, e12) refl,
    )

check_entry_sound :
    (raw : Bytes) (ix i : ℕ) (shared : Option Bytes) (m : Bytes)
    → check_entry raw ix i shared ≡ ok m
    → Signs raw ix m i × Agrees shared m
unfolding check_entry
check_entry_sound raw ix i shared m e =
    elim (Bool-cases (leb (entry_at i + offsets_struct_len) (length raw))) [
      | inl fits ↦
          let (o, reads) = read_offsets-reads raw (entry_at i) (ground arith) in
          let (p, a) = check_offsets_sound raw ix i shared o m (ground (arith, e, fits, reads)) in
          (record { offsets = o; inside = ground arith; reads = reads; points = p }, a)
      | inr outside ↦ absurd (ground (arith, e, outside))
    ]

check_entry_complete :
    (raw : Bytes) (ix i : ℕ) (shared : Option Bytes) (m : Bytes)
    → Signs raw ix m i
    → Agrees shared m
    → check_entry raw ix i shared ≡ ok m
unfolding check_entry
check_entry_complete raw ix i shared m s a =
    ground (arith, s.inside, s.reads, check_offsets_complete raw ix i shared s.offsets m s.points a)

check_entries_sound :
    (raw : Bytes) (ix left i : ℕ) (m : Bytes) (last : Option Bytes)
    → check_entries raw ix left i (some m) ≡ ok last
    → (last ≡ some m) × ((j : ℕ) → i ≤ j → j < i + left → Signs raw ix m j)
unfolding check_entries
check_entries_sound raw ix zero i m last e = (ground (arith, e), λ j lo hi. absurd (omega arith))
check_entries_sound raw ix (suc left) i m last e =
    let (k, now, later) = bind-ok (check_entry raw ix i (some m)) _ last e in
    let (s, same) = check_entry_sound raw ix i (some m) k now in
    let (ends, all) = check_entries_sound raw ix left (suc i) k last later in
    (
      ends ∙ ap some (sym same),
      λ j lo hi. elim (ℕ_discrete i j) [
        | yes here ↦ subst (Signs raw ix m) here (subst (λ x. Signs raw ix x i) (sym same) s)
        | no further ↦
            subst (λ x. Signs raw ix x j) (sym same) (all j (omega (arith, further)) (omega arith))
      ],
    )

check_entries_complete :
    (raw : Bytes) (ix left i : ℕ) (shared : Option Bytes) (m : Bytes)
    → Agrees shared m
    → ((j : ℕ) → i ≤ j → j < i + left → Signs raw ix m j)
    → 0 < left
    → check_entries raw ix left i shared ≡ ok (some m)
unfolding check_entries
check_entries_complete raw ix zero i shared m a s pos = absurd (omega arith)
check_entries_complete raw ix (suc zero) i shared m a s pos =
    rw (check_entry_complete raw ix i shared m (s i (omega arith) (omega arith)) a) refl
check_entries_complete raw ix (suc (suc left)) i shared m a s pos =
    rw (check_entry_complete raw ix i shared m (s i (omega arith) (omega arith)) a) (
      check_entries_complete raw ix (suc left) (suc i) (some m) m refl
        (λ j lo hi. s j (omega arith) (omega arith)) (omega arith))

module _ {P : Type 0} (unmarshal : Bytes → Option P) where
  -- The data announce at least one signature, every entry points into the data and names no other
  -- instruction than this one, all of them sign `m`, and `m` is the text of `p`.
  pub record SignedPayload (raw : Bytes) (ix : ℕ) (m : Bytes) (p : P) : Type 0 where
    pub count : ℕ
    pub announced : num_sigs raw ≡ ok count
    pub has_header : header_size ≤ length raw
    pub has_signatures : 0 < count
    pub all_sign : (i : ℕ) → i < count → Signs raw ix m i
    pub text : unmarshal m ≡ some p

  text_of :
      (shared : Option Bytes) (m : Bytes) (p : P)
      → shared ≡ some m
      → or_fail (unmarshal (bytes_or_empty shared)) unmarshal_error ≡ ok p
      → unmarshal m ≡ some p
  text_of none m p e h = absurd cc
  text_of (some s) m p e h = ground (arith, e, h)

  extract_sound :
      (raw : Bytes) (ix : ℕ) (p : P)
      → extract_solana_payload_from_ed25519 unmarshal raw ix ≡ ok p
      → (m : Bytes) × SignedPayload raw ix m p
  unfolding extract_solana_payload_from_ed25519 check_entries
  extract_sound [] ix p e = absurd cc
  extract_sound (zero ∷ rest) ix p e =
      let (u, has, none_announced) =
        bind-ok (guard (leb header_size (suc (length rest))) _) _ p e in
      absurd (ground (arith, none_announced))
  extract_sound (suc n ∷ rest) ix p e =
      let (u, has, e1) = bind-ok (guard (leb header_size (suc (length rest))) _) _ p e in
      let entries = check_entries (suc n ∷ rest) ix (suc n) 0 none in
      let finish =
        λ (shared : Option Bytes). or_fail (unmarshal (bytes_or_empty shared)) unmarshal_error in
      let rest_runs : (entries >>= finish) ≡ ok p = ground (arith, e1) in
      let (shared, e2, e3) = bind-ok entries finish p rest_runs in
      let (m, first, e4) = bind-ok (check_entry (suc n ∷ rest) ix 0 none) _ shared e2 in
      let (s, any) = check_entry_sound (suc n ∷ rest) ix 0 none m first in
      let (ends, all) = check_entries_sound (suc n ∷ rest) ix n 1 m shared e4 in
      (
        m,
        record {
          count = suc n;
          announced = refl;
          has_header = ground (arith, has);
          has_signatures = omega arith;
          all_sign = λ i hi. elim (ℕ_discrete 0 i) [
            | yes here ↦ subst (Signs (suc n ∷ rest) ix m) here s
            | no later ↦ all i (omega (arith, later)) (omega arith)
          ];
          text = text_of shared m p ends e3;
        },
      )

  extract_complete :
      (raw : Bytes) (ix : ℕ) (m : Bytes) (p : P)
      → SignedPayload raw ix m p
      → extract_solana_payload_from_ed25519 unmarshal raw ix ≡ ok p
  unfolding extract_solana_payload_from_ed25519
  extract_complete raw ix m p x =
      let entries =
        check_entries_complete raw ix x.count 0 none m tt (λ j lo hi. x.all_sign j (omega arith))
          x.has_signatures in
      ground (arith, x.announced, x.has_header, x.has_signatures, entries, x.text)

  -- `ExtractSolanaPayloadFromEd25519` returns a payload exactly if the data announce at least one
  -- signature, every announced entry and the ranges it names lie in the data, each of its three
  -- instruction indexes is the instruction's own, all entries sign the same message, and that
  -- message is the text of the payload.
  pub extract_solana_payload_from_ed25519_iff :
      (raw : Bytes) (ix : ℕ) (p : P)
      → (extract_solana_payload_from_ed25519 unmarshal raw ix ≡ ok p)
        ↔ ((m : Bytes) × SignedPayload raw ix m p)
  extract_solana_payload_from_ed25519_iff raw ix p =
      (extract_sound raw ix p, λ (m, x). extract_complete raw ix m p x)
