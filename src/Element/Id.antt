-- ===== src/Element/Id.antt =====
-- Ids as hexadecimal text: crates/kboard-core/src/element.rs, `to_hex` and `from_hex`.
use k_board.Common.{
  ℕ, zero, suc, ◌+◌, ◌-◌, ◌*◌, ◌/◌, ◌%◌, ◌^◌, ◌<◌, false, ◌&&◌, [], ◌∷◌, ◌++◌, Option, none, some,
  ltb, leb, ◌==◌, if◌then◌else◌, ◌≢◌, ◌≡◌, refl, ap, ◌∙◌, arith, All,
}
use k_board.Common.Text.{Str}
use k_board.Element.{ElementId}

-- `format!("{:032x}")`.
unfoldable pub hex_digit : ℕ → ℕ
hex_digit v = if ltb v 10 then 48 + v else 87 + v

unfoldable pub hex_digits : ℕ → ℕ → Str
hex_digits zero n = []
hex_digits (suc k) n = hex_digits k (n / 16) ++ hex_digit (n % 16) ∷ []

unfoldable pub to_hex : ElementId → Str
to_hex id = hex_digits 32 id

-- `trim_start_matches("0x")`.
abbrev pub trim_hex : Str → Str
trim_hex [] = []
trim_hex (b ∷ []) = b ∷ []
trim_hex (b ∷ c ∷ s) = let rest = trim_hex s in if b == b'0' && c == b'x' then rest else b ∷ c ∷ s

-- `char::to_digit` at radix 16.
unfoldable pub hex_value : ℕ → Option ℕ
hex_value b =
    if leb b'0' b && leb b b'9'
    then some (b - 48)
    else if leb b'a' b && leb b b'f'
    then some (b - 87)
    else if leb b'A' b && leb b b'F'
    then some (b - 55)
    else none

-- One digit of `u128::from_str_radix`, which refuses one that is none and a number that is too large.
abbrev pub push_digit : Option ℕ → Option ℕ → Option ℕ
push_digit none v = none
push_digit (some acc) none = none
push_digit (some acc) (some v) = if ltb (acc * 16 + v) (2 ^ 128) then some (acc * 16 + v) else none

unfoldable pub parse_hex : Option ℕ → Str → Option ℕ
parse_hex acc [] = acc
parse_hex acc (b ∷ s) = parse_hex (push_digit acc (hex_value b)) s

-- `u128::from_str_radix` takes a sign, and refuses the empty text and a sign alone.
unfoldable pub from_str_radix : Str → Option ℕ
from_str_radix [] = none
from_str_radix (b ∷ []) = if b == b'+' then none else parse_hex (some 0) (b ∷ [])
from_str_radix (b ∷ c ∷ s) =
    if b == b'+' then parse_hex (some 0) (c ∷ s) else parse_hex (some 0) (b ∷ c ∷ s)

unfoldable pub from_hex : Str → Option ElementId
from_hex text = from_str_radix (trim_hex text)

parse_hex-append :
    (acc : Option ℕ) (s : Str) (b : ℕ)
    → parse_hex acc (s ++ b ∷ []) ≡ push_digit (parse_hex acc s) (hex_value b)
unfolding parse_hex
parse_hex-append acc [] b = refl
parse_hex-append acc (c ∷ s) b = parse_hex-append (push_digit acc (hex_value c)) s b

hex_value-hex_digit : (v : ℕ) → v < 16 → hex_value (hex_digit v) ≡ some v
unfolding hex_value hex_digit
hex_value-hex_digit v h = ground arith

-- Powers of 16.
abbrev pow : ℕ → ℕ
pow zero = 1
pow (suc k) = 16 * pow k

parse_hex-hex_digits :
    (k n : ℕ) → n < pow k → n < 2 ^ 128 → parse_hex (some 0) (hex_digits k n) ≡ some n
unfolding hex_digits parse_hex
parse_hex-hex_digits zero n h small = let e : 0 ≡ n = omega arith in ap some e
parse_hex-hex_digits (suc k) n h small =
    parse_hex-append (some 0) (hex_digits k (n / 16)) (hex_digit (n % 16))
    ∙ ap (λ a. push_digit a (hex_value (hex_digit (n % 16))))
        (parse_hex-hex_digits k (n / 16) (omega arith) (omega arith))
    ∙ ap (push_digit (some (n / 16))) (hex_value-hex_digit (n % 16) (omega arith))
    ∙ ground arith

-- A byte that is neither an x nor a sign.
abbrev IsPlain : ℕ → Type 0
IsPlain b = ((b == b'x') ≡ false) × ((b == b'+') ≡ false)

hex_digit-IsPlain : (v : ℕ) → v < 16 → IsPlain (hex_digit v)
unfolding hex_digit
hex_digit-IsPlain v h = ground arith

All-append : (s t : Str) → All IsPlain s → All IsPlain t → All IsPlain (s ++ t)
All-append [] t h k = k
All-append (b ∷ s) t h k = (h.0, All-append s t h.1 k)

All-hex_digits : (k n : ℕ) → All IsPlain (hex_digits k n)
unfolding hex_digits
All-hex_digits zero n = tt
All-hex_digits (suc k) n =
    All-append (hex_digits k (n / 16)) (hex_digit (n % 16) ∷ []) (All-hex_digits k (n / 16))
      (hex_digit-IsPlain (n % 16) (omega arith), tt)

trim_plain : (s : Str) → All IsPlain s → trim_hex s ≡ s
trim_plain [] h = refl
trim_plain (b ∷ []) h = refl
trim_plain (b ∷ c ∷ s) h = let no = h.1.0.0 in ground arith

radix_plain : (s : Str) → s ≢ [] → All IsPlain s → from_str_radix s ≡ parse_hex (some 0) s
unfolding from_str_radix
radix_plain [] n h = absurd (n refl)
radix_plain (b ∷ []) n h = let no = h.0.1 in ground arith
radix_plain (b ∷ c ∷ s) n h = let no = h.0.1 in ground arith

snoc_filled : (s : Str) (b : ℕ) → s ++ b ∷ [] ≢ []
snoc_filled [] b e = cc
snoc_filled (c ∷ s) b e = cc

hex_digits_filled : (k n : ℕ) → hex_digits (suc k) n ≢ []
unfolding hex_digits
hex_digits_filled k n = snoc_filled (hex_digits k (n / 16)) (hex_digit (n % 16))

-- An id of 128 bits is read back from its hexadecimal text.
pub from_hex-to_hex : (id : ElementId) → id < 2 ^ 128 → from_hex (to_hex id) ≡ some id
unfolding from_hex to_hex
from_hex-to_hex id h =
    let plain = All-hex_digits 32 id in
    ap from_str_radix (trim_plain (hex_digits 32 id) plain)
    ∙ radix_plain (hex_digits 32 id) (hex_digits_filled 31 id) plain
    ∙ parse_hex-hex_digits 32 id (omega arith) h
