-- ===== src/Base/Lookup.antt =====
-- Elements at positions, and two lists element by element.
use Prim.Native.Nat.{ℕ, zero, suc, ◌+◌, ◌<◌}
use mathlib.Core.Path.{◌≡◌, refl, ap, subst}
use mathlib.Core.Logic.{◌⊎◌, inl, inr}
use mathlib.Core.List.{List, [], ◌∷◌, ◌++◌}
use mathlib.Core.Option.{some}
use native.Mathlib.Omega.{arith}
use solana_infrastructure.Base.Lists.{length, get_elem?}

some-injective {ℓ} : {A : Type ℓ} {x y : A} → some x ≡ some y → x ≡ y
some-injective e = cc

-- The lists have the same length, and elements at the same position are related.
abbrev pub All2 {ℓ κ} : {A : Type ℓ} {B : Type κ} → (A → B → Type 0) → List A → List B → Type 0
All2 R [] [] = Unit {0}
All2 R [] (y ∷ ys) = ⊥
All2 R (x ∷ xs) [] = ⊥
All2 R (x ∷ xs) (y ∷ ys) = R x y × All2 R xs ys

module _ {ℓ κ} {A : Type ℓ} {B : Type κ} where
  pub All2-snoc :
      (R : A → B → Type 0) (xs : List A) (ys : List B) (x : A) (y : B)
      → All2 R xs ys
      → R x y
      → All2 R (xs ++ x ∷ []) (ys ++ y ∷ [])
  All2-snoc R [] [] x y h r = (r, tt)
  All2-snoc R [] (b ∷ ys) x y h r = absurd h
  All2-snoc R (a ∷ xs) [] x y h r = absurd h
  All2-snoc R (a ∷ xs) (b ∷ ys) x y (q, h) r = (q, All2-snoc R xs ys x y h r)

  pub All2-map :
      (R Q : A → B → Type 0) (xs : List A) (ys : List B)
      → ((x : A) (y : B) → R x y → Q x y)
      → All2 R xs ys
      → All2 Q xs ys
  All2-map R Q [] [] f h = tt
  All2-map R Q [] (b ∷ ys) f h = absurd h
  All2-map R Q (a ∷ xs) [] f h = absurd h
  All2-map R Q (a ∷ xs) (b ∷ ys) f (q, h) = (f a b q, All2-map R Q xs ys f h)

  pub All2-length :
      (R : A → B → Type 0) (xs : List A) (ys : List B) → All2 R xs ys → length xs ≡ length ys
  All2-length R [] [] h = refl
  All2-length R [] (b ∷ ys) h = absurd h
  All2-length R (a ∷ xs) [] h = absurd h
  All2-length R (a ∷ xs) (b ∷ ys) (q, h) = omega (arith, All2-length R xs ys h)

  pub All2-get_elem? :
      (R : A → B → Type 0) (xs : List A) (ys : List B) (i : ℕ) (x : A)
      → All2 R xs ys
      → get_elem? xs i ≡ some x
      → (y : B) × (get_elem? ys i ≡ some y) × R x y
  All2-get_elem? R [] ys i x h e = absurd cc
  All2-get_elem? R (a ∷ xs) [] i x h e = absurd h
  All2-get_elem? R (a ∷ xs) (b ∷ ys) zero x (q, h) e =
      (b, refl, subst (λ z. R z b) (some-injective e) q)
  All2-get_elem? R (a ∷ xs) (b ∷ ys) (suc i) x (q, h) e = All2-get_elem? R xs ys i x h e

module _ {ℓ κ} {A : Type ℓ} {B : Type κ} where
  pub All2-get_elem?_right :
      (R : A → B → Type 0) (xs : List A) (ys : List B) (i : ℕ) (y : B)
      → All2 R xs ys
      → get_elem? ys i ≡ some y
      → (x : A) × (get_elem? xs i ≡ some x) × R x y
  All2-get_elem?_right R [] [] i y h e = absurd cc
  All2-get_elem?_right R [] (b ∷ ys) i y h e = absurd h
  All2-get_elem?_right R (a ∷ xs) [] i y h e = absurd h
  All2-get_elem?_right R (a ∷ xs) (b ∷ ys) zero y (q, h) e =
      (a, refl, subst (R a) (some-injective e) q)
  All2-get_elem?_right R (a ∷ xs) (b ∷ ys) (suc i) y (q, h) e = All2-get_elem?_right R xs ys i y h e

module _ {ℓ} {A : Type ℓ} where
  pub get_elem?-lt : (xs : List A) (i : ℕ) (a : A) → get_elem? xs i ≡ some a → i < length xs
  get_elem?-lt [] i a e = absurd cc
  get_elem?-lt (x ∷ xs) zero a e = omega arith
  get_elem?-lt (x ∷ xs) (suc i) a e = omega (arith, get_elem?-lt xs i a e)

  pub get_elem?-append_left :
      (xs ys : List A) (i : ℕ) (a : A) → get_elem? xs i ≡ some a → get_elem? (xs ++ ys) i ≡ some a
  get_elem?-append_left [] ys i a e = absurd cc
  get_elem?-append_left (x ∷ xs) ys zero a e = e
  get_elem?-append_left (x ∷ xs) ys (suc i) a e = get_elem?-append_left xs ys i a e

  pub get_elem?-append_right :
      (xs ys : List A) (n i : ℕ) → length xs ≡ n → get_elem? (xs ++ ys) (n + i) ≡ get_elem? ys i
  get_elem?-append_right [] ys zero i h = let e : zero + i ≡ i = omega arith in rw e refl
  get_elem?-append_right [] ys (suc n) i h = absurd (omega arith)
  get_elem?-append_right (x ∷ xs) ys zero i h = absurd (omega arith)
  get_elem?-append_right (x ∷ xs) ys (suc n) i h =
      let e : suc n + i ≡ suc (n + i) = omega arith in
      rw e (get_elem?-append_right xs ys n i (omega arith))

  -- An element after an addition at the end: an old one, or the new one.
  pub get_elem?-snoc_cases :
      (xs : List A) (y : A) (i : ℕ) (a : A)
      → get_elem? (xs ++ y ∷ []) i ≡ some a
      → (get_elem? xs i ≡ some a) ⊎ ((i ≡ length xs) × (y ≡ a))
  get_elem?-snoc_cases [] y zero a e = inr (refl, some-injective e)
  get_elem?-snoc_cases [] y (suc i) a e = absurd cc
  get_elem?-snoc_cases (x ∷ xs) y zero a e = inl e
  get_elem?-snoc_cases (x ∷ xs) y (suc i) a e = elim (get_elem?-snoc_cases xs y i a e) [
    | inl old ↦ inl old
    | inr (at, new) ↦ inr (ap suc at, new)
  ]
