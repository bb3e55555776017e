-- ===== src/Frac/Digit.antt =====
-- Digits and their values: crates/kboard-core/src/frac.rs, `DIGITS` and `value_of`.
use k_board.Common.{
  ℕ, zero, suc, ◌+◌, ◌<◌, Bool, true, ◌&&◌, ◌||◌, List, [], ◌∷◌, some, unwrap_or, get_elem?, length,
  ltb, leb, ◌==◌, if◌then◌else◌, ◌≡◌, ◌≢◌, refl, ap, ◌∙◌, arith, All,
}
use k_board.Common.Text.{Str}
use k_board.Frac.{digits, value_of, base}

-- The digit of a value, and whether a byte is a digit.
unfoldable pub digit : ℕ → ℕ
digit v = if ltb v 10 then 48 + v else if ltb v 36 then 55 + v else 61 + v

unfoldable pub is_digit : ℕ → Bool
is_digit b = leb b'0' b && leb b b'9' || (leb b'A' b && leb b b'Z') || (leb b'a' b && leb b b'z')

abbrev pub Digits : Str → Type 0
Digits s = All (λ b. is_digit b ≡ true) s

holds_below : ℕ → (ℕ → Bool) → Bool
holds_below zero p = true
holds_below (suc n) p = p n && holds_below n p

holds_below_sound : (n : ℕ) (p : ℕ → Bool) (x : ℕ) → holds_below n p ≡ true → x < n → p x ≡ true
unfolding holds_below
holds_below_sound zero p x h lt = absurd (omega arith)
holds_below_sound (suc n) p x h lt = ground (arith, holds_below_sound n p x)

reads : ℕ → Bool
reads v = unwrap_or 0 (get_elem? digits v) == digit v

table : holds_below 62 reads ≡ true
unfolding holds_below reads digit
table = refl

get_elem?_below {ℓ} :
    {A : Type ℓ} (xs : List A) (d : A) (i : ℕ)
    → i < length xs
    → get_elem? xs i ≡ some (unwrap_or d (get_elem? xs i))
get_elem?_below [] d i h = elim h [ ]
get_elem?_below (x ∷ xs) d zero h = refl
get_elem?_below (x ∷ xs) d (suc i) h = get_elem?_below xs d i (omega arith)

reads_iff : (v : ℕ) → reads v ≡ true → unwrap_or 0 (get_elem? digits v) ≡ digit v
unfolding reads
reads_iff v h = ground arith

-- The table of digits has the digit of each value below the base.
pub get_elem?-digits : (v : ℕ) → v < base → get_elem? digits v ≡ some (digit v)
get_elem?-digits v h =
    get_elem?_below digits 0 v h ∙ ap some (reads_iff v (holds_below_sound 62 reads v table h))

pub value_of-lt : (b : ℕ) → value_of b < base
unfolding value_of
value_of-lt b = ground arith

pub digit-value_of : (b : ℕ) → is_digit b ≡ true → digit (value_of b) ≡ b
unfolding digit value_of is_digit
digit-value_of b h = ground arith

pub digit_mono : (v w : ℕ) → v < w → w < base → digit v < digit w
unfolding digit
digit_mono v w h k = ground arith

pub value_of_mono :
    (b c : ℕ) → is_digit b ≡ true → is_digit c ≡ true → b < c → value_of b < value_of c
unfolding value_of is_digit
value_of_mono b c h k l = ground arith

pub digit-is_digit : (v : ℕ) → v < base → is_digit (digit v) ≡ true
unfolding digit is_digit
digit-is_digit v h = ground arith

pub digit-ne-zero : (v : ℕ) → 0 < v → digit v ≢ b'0'
unfolding digit
digit-ne-zero v h = ground arith

pub digit-lt-128 : (b : ℕ) → is_digit b ≡ true → b < 128
unfolding is_digit
digit-lt-128 b h = ground arith
