-- ===== src/Common/Float/Arith.antt =====
-- The arithmetic of `f64` on bit patterns, IEEE 754 in rounding to nearest, ties to even, and the
-- comparisons. Not a number has one pattern here.
use k_board.Common.Tests.{◌==◌, ltb, leb, if◌then◌else◌}
use Prim.Native.Nat.{ℕ, ◌+◌, ◌-◌, ◌*◌, ◌/◌, ◌%◌, ◌^◌, min}
use mathlib.Core.Bool.{Bool, true, false, not, ◌&&◌, ◌||◌}
use k_board.Common.Float.{F64, log2_below}

abbrev pub sign_bit : ℕ
sign_bit = 2 ^ 63

abbrev pub infinity : F64
infinity = 2047 * 2 ^ 52

abbrev pub not_a_number : F64
not_a_number = infinity + 2 ^ 51

-- `f64::MAX` and `f64::MIN`.
abbrev pub largest : F64
largest = infinity - 1

abbrev pub smallest : F64
smallest = sign_bit + largest

unfoldable pub magnitude : F64 → ℕ
magnitude bits = bits % sign_bit

unfoldable pub is_negative : F64 → Bool
is_negative bits = leb sign_bit bits

unfoldable pub is_nan : F64 → Bool
is_nan bits = ltb infinity (magnitude bits)

unfoldable pub signed : Bool → ℕ → F64
signed negative bits = if negative then sign_bit + bits else bits

-- `<`, `<=`: false where either is not a number; the two zeros are equal.
unfoldable pub less : F64 → F64 → Bool
less a b =
    not (is_nan a)
    && not (is_nan b)
    && (if is_negative a
        then (if is_negative b
            then ltb (magnitude b) (magnitude a)
            else ltb 0 (magnitude a + magnitude b))
        else not (is_negative b) && ltb (magnitude a) (magnitude b))

unfoldable pub less_or_equal : F64 → F64 → Bool
less_or_equal a b = not (is_nan a) && not (is_nan b) && not (less b a)

-- `f64::min`, `f64::max`, which take the other where one is not a number, and `f64::clamp`.
unfoldable pub float_min : F64 → F64 → F64
float_min a b = if is_nan a then b else if less b a then b else a

unfoldable pub float_max : F64 → F64 → F64
float_max a b = if is_nan a then b else if less a b then b else a

unfoldable pub clamp : F64 → F64 → F64 → F64
clamp value low high =
    let raised = if less value low then low else value in if less high raised then high else raised

-- A finite number is its significand times 2 to its exponent, less 1074.
unfoldable pub exponent_of : F64 → ℕ
exponent_of bits = magnitude bits / 2 ^ 52 - 1

unfoldable pub significand_of : F64 → ℕ
significand_of bits =
    if ltb (magnitude bits) (2 ^ 52) then magnitude bits else magnitude bits % 2 ^ 52 + 2 ^ 52

-- The multiple of 2 to the -1074 that a finite number is.
unfoldable pub units : F64 → ℕ
units bits = significand_of bits * 2 ^ exponent_of bits

unfoldable pub nearest : ℕ → ℕ → ℕ
nearest n unit =
    let q = n / unit in
    let r = n % unit in if ltb unit (2 * r) || (2 * r == unit && q % 2 == 1) then q + 1 else q

-- The number nearest to a ratio of units.
unfoldable pub round_ratio : ℕ → ℕ → ℕ
round_ratio n d =
    let e = log2_below 4400 (n / d) - 52 in min infinity (e * 2 ^ 52 + nearest n (d * 2 ^ e))

-- The sum of two signed numbers of units.
unfoldable pub add_units : Bool → ℕ → Bool → ℕ → F64
add_units true m true n = signed true (round_ratio (m + n) 1)
add_units false m false n = round_ratio (m + n) 1
add_units true m false n =
    if ltb n m then signed true (round_ratio (m - n) 1) else round_ratio (n - m) 1
add_units false m true n =
    if ltb m n then signed true (round_ratio (n - m) 1) else round_ratio (m - n) 1

unfoldable pub float_add : F64 → F64 → F64
float_add a b =
    if is_nan a || is_nan b
    then not_a_number
    else if magnitude a == infinity
    then (if magnitude b == infinity && not (a == b) then not_a_number else a)
    else if magnitude b == infinity
    then b
    else add_units (is_negative a) (units a) (is_negative b) (units b)

unfoldable pub negate : F64 → F64
negate a = if is_negative a then a - sign_bit else sign_bit + a

unfoldable pub float_sub : F64 → F64 → F64
float_sub a b = float_add a (negate b)

unfoldable pub differ : Bool → Bool → Bool
differ true b = not b
differ false b = b

unfoldable pub float_mul : F64 → F64 → F64
float_mul a b =
    let negative = differ (is_negative a) (is_negative b) in
    if is_nan a || is_nan b
    then not_a_number
    else if magnitude a == infinity || magnitude b == infinity
    then (if magnitude a == 0 || magnitude b == 0 then not_a_number else signed negative infinity)
    else signed negative (round_ratio (units a * units b) (2 ^ 1074))

-- The quotient of two finite numbers, the second of which is not zero.
unfoldable pub float_div : F64 → F64 → F64
float_div a b =
    signed (differ (is_negative a) (is_negative b)) (round_ratio (units a * 2 ^ 1074) (units b))
