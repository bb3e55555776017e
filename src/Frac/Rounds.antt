-- ===== src/Frac/Rounds.antt =====
-- A round of the loop of `between`, and the recursion on the bounds that it follows: crates/kboard-core/src/frac.rs.
use k_board.Common.{
  ℕ, zero, suc, ◌+◌, ◌/◌, ◌<◌, ◌≤◌, Bool, true, false, [], ◌∷◌, ◌++◌, Option, drop, length, ltb,
  if◌then◌else◌, ◌≡◌, refl, ◌∙◌, arith,
}
use k_board.Common.Text.{Str}
use k_board.Frac.{value_of, base, digit_at, high_at, done, search_digit}
use k_board.Frac.Digit.{digit, get_elem?-digits, value_of-lt}

-- The value of the first digit, 0 where there is none.
abbrev pub first_value : Str → ℕ
first_value [] = 0
first_value (b ∷ s) = value_of b

abbrev pub rest : Str → Str
rest [] = []
rest (b ∷ s) = s

-- The key above `lower`, with no upper bound.
unfoldable pub above : Str → Str
above [] = digit 31 ∷ []
above (b ∷ lower) =
    let later = above lower in
    if ltb (value_of b + 1) base
    then digit ((value_of b + base) / 2) ∷ []
    else digit (value_of b) ∷ later

-- The key above `lower` and below `upper`.
unfoldable pub within : Str → Str → Str
within lower [] = above lower
within lower (c ∷ upper) =
    let low = first_value lower in
    let high = value_of c in
    let later = within (rest lower) upper in
    if ltb (low + 1) high
    then digit ((low + high) / 2) ∷ []
    else digit low ∷ (if ltb low high then above (rest lower) else later)

pub digit_at-drop : (key : Str) (i : ℕ) → digit_at key i ≡ first_value (drop i key)
unfolding digit_at
digit_at-drop [] zero = refl
digit_at-drop [] (suc i) = refl
digit_at-drop (b ∷ key) zero = refl
digit_at-drop (b ∷ key) (suc i) = digit_at-drop key i

pub drop-suc : (key : Str) (i : ℕ) → drop (suc i) key ≡ rest (drop i key)
drop-suc [] zero = refl
drop-suc [] (suc i) = refl
drop-suc (b ∷ key) zero = refl
drop-suc (b ∷ key) (suc i) = drop-suc key i

pub first_value-lt : (s : Str) → first_value s < base
first_value-lt [] = omega arith
first_value-lt (b ∷ s) = value_of-lt b

pub length-rest : (s : Str) → length (rest s) ≤ length s
length-rest [] = omega arith
length-rest (b ∷ s) = omega arith

-- A round without an upper bound.
pub above_lem :
    (s : Str)
    → above s ≡ (
        if ltb (first_value s + 1) base
        then digit ((first_value s + base) / 2) ∷ []
        else digit (first_value s) ∷ above (rest s))
unfolding above
above_lem [] = refl
above_lem (b ∷ s) = refl

pub above_room :
    (s : Str)
    → ltb (first_value s + 1) base ≡ true
    → above s ≡ digit ((first_value s + base) / 2) ∷ []
above_room s h = above_lem s ∙ rw h

pub above_tight :
    (s : Str)
    → ltb (first_value s + 1) base ≡ false
    → above s ≡ digit (first_value s) ∷ above (rest s)
above_tight s h = above_lem s ∙ rw h

pub high_at_free : (upper : Option Str) (i : ℕ) → high_at false upper i ≡ base
unfolding high_at
high_at_free upper i = refl

pub same_branch {ℓ} : {A : Type ℓ} {a : A} (b : Bool) → (if b then a else a) ≡ a
same_branch true = refl
same_branch false = refl

-- A round that emits the digit of the lower bound has one to emit.
pub shorter :
    (s : Str) (fuel : ℕ)
    → ltb (first_value s + 1) base ≡ false
    → length s < suc fuel
    → length (rest s) < fuel
shorter [] fuel t h = absurd (ground arith)
shorter (b ∷ s) fuel t h = omega arith

pub length-tight :
    (fuel : ℕ) (lower : Str) (i : ℕ)
    → ltb (first_value (drop i lower) + 1) base ≡ false
    → length (drop i lower) < suc fuel
    → length (drop (suc i) lower) < fuel
length-tight fuel lower i t h = rw (drop-suc lower i) (shorter (drop i lower) fuel t h)

-- One round of the loop: no digit is out of range.
pub search_round :
    (fuel : ℕ) (lower : Str) (upper : Option Str) (i : ℕ) (bounded : Bool) (out : Str) (high : ℕ)
    → high_at bounded upper i ≡ high
    → high ≤ base
    → let low = first_value (drop i lower) in
      search_digit (suc fuel) lower upper i bounded out ≡ (
        if ltb (low + 1) high
        then done (out ++ digit ((low + high) / 2) ∷ [])
        else search_digit fuel lower upper
            (suc i)
            (if ltb low high then false else bounded)
            (out ++ digit low ∷ []))
unfolding search_digit
search_round fuel lower upper i bounded out high e h =
    let low = first_value (drop i lower) in
    let small : low < base = first_value-lt (drop i lower) in
    ground (arith, digit_at-drop lower i, get_elem?-digits low, get_elem?-digits ((low + high) / 2))
