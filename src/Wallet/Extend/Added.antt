-- ===== src/Wallet/Extend/Added.antt =====
-- About NewExtendInstructions: which addresses the instructions add, and how many each.
use solana_infrastructure.Base.{
  ℕ, zero, suc, ◌+◌, ◌/◌, ◌<◌, ◌≤◌, ◌≡◌, refl, sym, ap, ◌∙◌, true, false, ◌&&◌, not, List, [], ◌∷◌,
  ◌++◌, subst, map, All, length, length-take, length-drop, take, drop, take-drop, Option, some, ok,
  arith,
}
use solana_infrastructure.Base.Bytes.{Bytes, bytes_eq, bytes_eq→eq, bytes_eq_refl}
use solana_infrastructure.Wallet.Keys.{PublicKey, GenericInstruction}
use solana_infrastructure.Wallet.Extend.{
  contains, to_add, chunks, table_keys, build_extend_lookup_table_instruction,
  new_extend_instructions,
}

abbrev flatten : List (List PublicKey) → List PublicKey
flatten [] = []
flatten (c ∷ cs) = c ++ flatten cs

abbrev IsChunk : List PublicKey → Type 0
IsChunk c = (0 < length c) × (length c ≤ 20)

flatten-chunks :
    (fuel : ℕ) (keys : List PublicKey) → length keys ≤ fuel → flatten (chunks fuel keys) ≡ keys
unfolding chunks
flatten-chunks zero [] h = refl
flatten-chunks zero (k ∷ keys) h = absurd (omega arith)
flatten-chunks (suc fuel) [] h = refl
flatten-chunks (suc fuel) (k ∷ keys) h =
    ap (◌++◌ (take 20 (k ∷ keys)))
      (flatten-chunks fuel (drop 20 (k ∷ keys)) (omega (arith, length-drop 20 (k ∷ keys))))
    ∙ take-drop 20 (k ∷ keys)

chunks-IsChunk : (fuel : ℕ) (keys : List PublicKey) → All IsChunk (chunks fuel keys)
unfolding chunks
chunks-IsChunk zero keys = tt
chunks-IsChunk (suc fuel) [] = tt
chunks-IsChunk (suc fuel) (k ∷ keys) = (
  (omega (arith, length-take 20 (k ∷ keys)), omega (arith, length-take 20 (k ∷ keys))),
  chunks-IsChunk fuel (drop 20 (k ∷ keys)),
)

length-chunks :
    (fuel : ℕ) (keys : List PublicKey)
    → length keys ≤ fuel
    → length (chunks fuel keys) ≡ (length keys + 19) / 20
unfolding chunks
length-chunks zero [] h = omega arith
length-chunks zero (k ∷ keys) h = absurd (omega arith)
length-chunks (suc fuel) [] h = omega arith
length-chunks (suc fuel) (k ∷ keys) h = omega (
  arith,
  length-drop 20 (k ∷ keys),
  length-chunks fuel (drop 20 (k ∷ keys)) (omega (arith, length-drop 20 (k ∷ keys))),
)

contains_same :
    (seen : List PublicKey) (k key : PublicKey)
    → bytes_eq k key ≡ true
    → contains seen k ≡ contains seen key
contains_same seen k key h = ap (contains seen) (bytes_eq→eq k key h)

contains-to_add :
    (seen addresses : List PublicKey) (key : PublicKey)
    → contains (to_add seen addresses) key ≡ (contains addresses key && not (contains seen key))
unfolding contains to_add
contains-to_add seen [] key = refl
contains-to_add seen (k ∷ addresses) key = ground (
  arith,
  contains_same seen k key,
  contains-to_add seen addresses key,
  contains-to_add (k ∷ seen) addresses key,
)

-- No key stands twice.
abbrev IsDistinct : List PublicKey → Type 0
IsDistinct [] = Unit {0}
IsDistinct (k ∷ keys) = (contains keys k ≡ false) × IsDistinct keys

to_add_once :
    (seen addresses : List PublicKey) (k : PublicKey)
    → contains (to_add (k ∷ seen) addresses) k ≡ false
unfolding contains
to_add_once seen addresses k =
    ground (arith, contains-to_add (k ∷ seen) addresses k, bytes_eq_refl k)

to_add-IsDistinct : (seen addresses : List PublicKey) → IsDistinct (to_add seen addresses)
unfolding to_add
to_add-IsDistinct seen [] = tt
to_add-IsDistinct seen (k ∷ addresses) = ground (
  arith,
  to_add_once seen addresses k,
  to_add-IsDistinct seen addresses,
  to_add-IsDistinct (k ∷ seen) addresses,
)

-- The instructions, from groups of one to twenty keys, as few as that allows; together the groups
-- hold each requested key once that the table does not have, and no other key.
pub record Extends (build : List PublicKey → GenericInstruction) (table addresses : List PublicKey)
    (is : List GenericInstruction) : Type 0 where
  pub groups : List (List PublicKey)
  pub built : is ≡ map build groups
  pub sized : All IsChunk groups
  pub few : length groups ≡ (length (flatten groups) + 19) / 20
  pub distinct : IsDistinct (flatten groups)
  pub exactly :
      (key : PublicKey)
      → contains (flatten groups) key ≡ (contains addresses key && not (contains table key))

chunks-Extends :
    (build : List PublicKey → GenericInstruction) (table addresses new : List PublicKey)
    → to_add table addresses ≡ new
    → Extends build table addresses (map build (chunks (length new) new))
chunks-Extends build table addresses new e =
    let whole = flatten-chunks (length new) new (omega arith) in
    record {
      groups = chunks (length new) new;
      built = refl;
      sized = chunks-IsChunk (length new) new;
      few =
          length-chunks (length new) new (omega arith)
          ∙ ap (λ (l : List PublicKey). (length l + 19) / 20) (sym whole);
      distinct = subst IsDistinct (e ∙ sym whole) (to_add-IsDistinct table addresses);
      exactly = λ key.
          ap (λ (l : List PublicKey). contains l key) (whole ∙ sym e)
          ∙ contains-to_add table addresses key;
    }

-- When the fetcher answers, NewExtendInstructions returns extend instructions, each for one to
-- twenty keys and as few as that allows; together they add each requested key once that the table
-- does not have, and no other key.
pub new_extend_instructions-Extends :
    (alt_id system_id : PublicKey) (table_address : List Bytes → Option (PublicKey × ℕ))
    (fetch : PublicKey → Option (Option (List PublicKey))) (alt_address authority payer : PublicKey)
    (addresses : List PublicKey) (state : Option (List PublicKey))
    → fetch alt_address ≡ some state
    → (is : List GenericInstruction) × (new_extend_instructions alt_id system_id table_address
          (some fetch)
          alt_address
          authority
          payer
          addresses
        ≡ ok is)
      × Extends
          (build_extend_lookup_table_instruction alt_id system_id table_address alt_address
            authority payer)
          (table_keys state)
          addresses
          is
unfolding new_extend_instructions
new_extend_instructions-Extends alt_id system_id table_address fetch alt_address authority payer
      addresses state e =
    let new = to_add (table_keys state) addresses in
    (
      map
          (build_extend_lookup_table_instruction alt_id system_id table_address alt_address
            authority payer)
          (chunks (length new) new),
      rw e refl,
      chunks-Extends _ (table_keys state) addresses new refl,
    )
