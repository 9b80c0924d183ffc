-- ===== src/Tracker/Slots/Windows.antt =====
-- About `getSlotsToQueryBlocks`: the slots of one window, and of several.
use native.Mathlib.Nat.{div-add-mod, mul_comm, mod-lt, le-div_iff_mul-le, mul-le-mul_right}
use solana_infrastructure.Base.{
  ==_iff, ℕ, suc, ◌+◌, ◌*◌, ◌/◌, ◌%◌, ◌<◌, ◌≤◌, ◌≡◌, ◌≢◌, refl, Bool, true, false, List, [], ◌∷◌,
  drop, All, arith, ◌==◌, if◌then◌else◌,
}
use solana_infrastructure.Tracker.Slots.{closes_group, slots_loop}

-- The slots rise, from above `low`.
abbrev pub Rising : ℕ → List ℕ → Type 0
Rising low [] = Unit {0}
Rising low (s ∷ rest) = (low ≤ s) × Rising (suc s) rest

-- The slots of `xs` that are queried when `y` follows them.
slots_before : ℕ → List ℕ → ℕ → List ℕ
slots_before threshold [] y = []
slots_before threshold (s ∷ []) y =
    if s % threshold == 0 then s ∷ [] else if closes_group threshold s (y ∷ []) then s ∷ [] else []
slots_before threshold (s ∷ n ∷ xs) y =
    let later = slots_before threshold (n ∷ xs) y in
    if s % threshold == 0
    then s ∷ later
    else if closes_group threshold s (n ∷ [])
    then s ∷ later
    else later

-- What the second window queries besides its first slot, if that is a multiple.
abbrev pub not_yet_queried : ℕ → ℕ → List ℕ → List ℕ
not_yet_queried threshold y l = if y % threshold == 0 then drop 1 l else l

-- A multiple of the threshold stands between the two slots, or at the first.
abbrev pub Between : ℕ → ℕ → ℕ → Type 0
Between threshold a b = (q : ℕ) × (a ≤ q * threshold) × (q * threshold < b)

-- Any two of the slots have a multiple between them.
abbrev pub Spread : ℕ → List ℕ → Type 0
Spread threshold [] = Unit {0}
Spread threshold (a ∷ l) = All (Between threshold a) l × Spread threshold l

-- `n` is its quotient's multiple and a remainder.
div_parts : (threshold n : ℕ) → n / threshold * threshold + n % threshold ≡ n
div_parts threshold n = omega (arith, div-add-mod n threshold, mul_comm threshold (n / threshold))

at_multiple : (threshold a b : ℕ) → a % threshold ≡ 0 → a < b → Between threshold a b
at_multiple threshold a b e lt =
    (a / threshold, omega (arith, div_parts threshold a), omega (arith, div_parts threshold a))

across :
    (threshold a n b : ℕ)
    → 0 < threshold
    → a < n
    → n ≤ b
    → n / threshold ≢ a / threshold
    → n % threshold ≢ 0
    → Between threshold a b
across threshold a n b pos lt le other rest =
    let up : a / threshold ≤ n / threshold =
      (le-div_iff_mul-le pos).1 (omega (arith, div_parts threshold a)) in
    let next : suc (a / threshold) * threshold ≤ n / threshold * threshold =
      mul-le-mul_right threshold (omega arith) in
    (
      n / threshold,
      omega (arith, div_parts threshold a, mod-lt a pos, next),
      omega (arith, div_parts threshold n),
    )

Rising-weaken : (low high : ℕ) (l : List ℕ) → low ≤ high → Rising high l → Rising low l
Rising-weaken low high [] le h = tt
Rising-weaken low high (s ∷ l) le (h, r) = (omega arith, r)

All-Between-later :
    (threshold a n : ℕ) (l : List ℕ)
    → ((b : ℕ) → n ≤ b → Between threshold a b)
    → Rising n l
    → All (Between threshold a) l
All-Between-later threshold a n [] h r = tt
All-Between-later threshold a n (b ∷ l) h (le, r) =
    (h b le, All-Between-later threshold a n l h (Rising-weaken n (suc b) l (omega arith) r))

-- The queried slots are slots of the window, in its order.
pub slots_loop-Rising :
    (threshold low : ℕ) (l : List ℕ) → Rising low l → Rising low (slots_loop threshold l)
unfolding slots_loop
slots_loop-Rising threshold low [] r = tt
slots_loop-Rising threshold low (s ∷ l) (le, r) =
    let later = slots_loop-Rising threshold (suc s) l r in
    ground (arith, later, Rising-weaken low (suc s) (slots_loop threshold l) (omega arith) later)

-- A slot that is picked, for either reason, comes before slots that it is apart from.
pick-Spread :
    (threshold s : ℕ) (multiple closes : Bool) (later : List ℕ)
    → (multiple ≡ true → All (Between threshold s) later)
    → (closes ≡ true → All (Between threshold s) later)
    → Spread threshold later
    → Spread threshold (if multiple then s ∷ later else if closes then s ∷ later else later)
pick-Spread threshold s true closes later h k r = (h refl, r)
pick-Spread threshold s false true later h k r = (k refl, r)
pick-Spread threshold s false false later h k r = r

closes_group-across :
    (threshold s n b : ℕ) (l : List ℕ)
    → 0 < threshold
    → s < n
    → n ≤ b
    → closes_group threshold s (n ∷ l) ≡ true
    → Between threshold s b
unfolding closes_group
closes_group-across threshold s n b l pos lt le h =
    across threshold s n b pos lt le (ground arith) (ground arith)

slots_loop-Spread :
    (threshold low : ℕ) (l : List ℕ)
    → 0 < threshold
    → Rising low l
    → Spread threshold (slots_loop threshold l)
unfolding slots_loop
slots_loop-Spread threshold low [] pos r = tt
slots_loop-Spread threshold low (s ∷ []) pos (le, r) =
    pick-Spread threshold s (s % threshold == 0) (closes_group threshold s []) [] (λ e. tt)
      (λ e. tt) tt
slots_loop-Spread threshold low (s ∷ n ∷ l) pos (le, (lt, r)) =
    let rising = slots_loop-Rising threshold n (n ∷ l) (omega arith, r) in
    let all = All-Between-later threshold s n (slots_loop threshold (n ∷ l)) in
    pick-Spread threshold s (s % threshold == 0) (closes_group threshold s (n ∷ l))
      (slots_loop threshold (n ∷ l))
      (λ e.
        all (λ b hb. at_multiple threshold s b ((==_iff (s % threshold) 0).0 e) (omega arith))
          rising)
      (λ e. all (λ b hb. closes_group-across threshold s n b l pos lt hb e) rising)
      (slots_loop-Spread threshold (suc s) (n ∷ l) pos (lt, r))

-- Of the slots of a rising window, the queried ones rise too, and between any two of them there is
-- a multiple of the threshold, the earlier one included: no two stand for the same multiple.
pub slots_loop_apart :
    (threshold low : ℕ) (l : List ℕ)
    → 0 < threshold
    → Rising low l
    → Rising low (slots_loop threshold l) × Spread threshold (slots_loop threshold l)
slots_loop_apart threshold low l pos r =
    (slots_loop-Rising threshold low l r, slots_loop-Spread threshold low l pos r)
