-- ===== src/Base/Reverse.antt =====
-- Lists in the opposite order, and the elements that a test keeps.
use native.Mathlib.Omega.{arith}
use mathlib.Core.Path.{◌≡◌, refl, ap, ◌∙◌}
use mathlib.Core.Logic.{inl, inr}
use mathlib.Core.Bool.{Bool, true}
use mathlib.Core.List.{List, [], ◌∷◌, ◌++◌, append-nil}
use solana_infrastructure.Base.Tests.{Bool-cases}
use solana_infrastructure.Base.Lists.{length, length-append, keep, All, All-append}

module _ {ℓ} {A : Type ℓ} where
  abbrev pub reverse : List A → List A
  reverse [] = []
  reverse (x ∷ xs) = reverse xs ++ x ∷ []

  keep-append : (p : A → Bool) (xs ys : List A) → keep p (xs ++ ys) ≡ keep p xs ++ keep p ys
  keep-append p [] ys = refl
  keep-append p (x ∷ xs) ys = ground (arith, keep-append p xs ys)

  pub keep-reverse : (p : A → Bool) (l : List A) → keep p (reverse l) ≡ reverse (keep p l)
  keep-reverse p [] = refl
  keep-reverse p (x ∷ l) =
      let e =
        keep-append p (reverse l) (x ∷ []) ∙ ap (λ r. r ++ keep p (x ∷ [])) (keep-reverse p l) in
      ground (arith, e, append-nil (reverse (keep p l)))

  -- Tests that agree keep the same.
  pub keep_same : (p q : A → Bool) → ((x : A) → p x ≡ q x) → (l : List A) → keep p l ≡ keep q l
  keep_same p q h [] = refl
  keep_same p q h (x ∷ l) = ground (arith, h x, keep_same p q h l)

  pub keep_all : (l : List A) → keep (λ x. true) l ≡ l
  keep_all [] = refl
  keep_all (x ∷ l) = ap (λ r. x ∷ r) (keep_all l)

  pub All-reverse : (P : A → Type 0) (l : List A) → All P l → All P (reverse l)
  All-reverse P [] h = tt
  All-reverse P (x ∷ l) (h, hs) = All-append P (reverse l) (x ∷ []) (All-reverse P l hs) (h, tt)

  pub All-keep : (P : A → Type 0) (p : A → Bool) (l : List A) → All P l → All P (keep p l)
  All-keep P p [] h = tt
  All-keep P p (x ∷ l) (h, hs) =
      let rest = All-keep P p l hs in
      elim (Bool-cases (p x)) [
        | inl kept ↦ rw (kept, All) (h, rest)
        | inr dropped ↦ rw (dropped, All) rest
      ]

  pub length-reverse : (l : List A) → length (reverse l) ≡ length l
  length-reverse [] = refl
  length-reverse (x ∷ l) = omega (arith, length-append (reverse l) (x ∷ []), length-reverse l)
