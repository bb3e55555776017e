-- ===== src/Frac.antt =====
-- Fractional z-order keys: crates/kboard-core/src/frac.rs.
pub mod Digit
pub mod Rounds
pub mod Search
pub mod Between
pub mod Bounds
use k_board.Common.{
  ℕ, zero, suc, ◌+◌, ◌-◌, ◌/◌, Bool, true, false, ◌&&◌, List, [], ◌∷◌, ◌++◌, Option, none, some,
  map_or, unwrap_or, is_some, get_elem?, length, ltb, leb, if◌then◌else◌,
}
use k_board.Common.Order.{bytes_ord, at_most}
use k_board.Common.Text.{Str, ascii, from_utf8}

abbrev pub digits : Str
digits = ascii "0123456789ABCDEFGHIJKLMNOPQRSTUVWXYZabcdefghijklmnopqrstuvwxyz"

abbrev pub base : ℕ
base = 62

unfoldable pub value_of : ℕ → ℕ
value_of byte =
    if leb b'0' byte && leb byte b'9'
    then byte - b'0'
    else if leb b'A' byte && leb byte b'Z'
    then byte - b'A' + 10
    else if leb b'a' byte && leb byte b'z'
    then byte - b'a' + 36
    else 0

unfoldable pub digit_at : Str → ℕ → ℕ
digit_at key index = map_or 0 value_of (get_elem? key index)

-- The upper bound of a round: that of the digit, while there is one, and the base otherwise.
unfoldable pub high_at : Bool → Option Str → ℕ → ℕ
high_at true upper index = map_or base (λ u. map_or base value_of (get_elem? u index)) upper
high_at false upper index = base

-- How the loop ends. `DIGITS[i]` panics out of range; the source's loop has no fuel.
pub data Outcome : Type 0 where
  done : Str → Outcome
  index_panic out_of_fuel : Outcome

unfoldable pub search_digit : ℕ → Str → Option Str → ℕ → Bool → Str → Outcome
search_digit zero lower upper index bounded out = out_of_fuel
search_digit (suc fuel) lower upper index bounded out =
    let low = digit_at lower index in
    let high = high_at bounded upper index in
    elim (ltb (low + 1) high) [
      | true ↦ elim (get_elem? digits ((low + high) / 2)) [
        | some c ↦ done (out ++ c ∷ [])
        | none ↦ index_panic
      ]
      | false ↦ elim (get_elem? digits low) [
        | some c ↦
            search_digit fuel lower upper (suc index) (if ltb low high then false else bounded)
              (out ++ c ∷ [])
        | none ↦ index_panic
      ]
    ]

-- A misordered pair loses its upper bound.
unfoldable pub effective_upper : Option Str → Option Str → Option Str
effective_upper (some b) (some a) = if at_most a b then none else some a
effective_upper before after = after

-- `String::from_utf8(out).unwrap_or_else(|_| "V".to_owned())`.
unfoldable pub finish : Outcome → Outcome
finish (done out) = done (unwrap_or (ascii "V") (from_utf8 out))
finish index_panic = index_panic
finish out_of_fuel = out_of_fuel

unfoldable pub between : Option Str → Option Str → Outcome
between before after =
    let upper = effective_upper before after in
    let lower = unwrap_or [] before in
    let fuel = suc (length lower + length (unwrap_or [] upper)) in
    finish (search_digit fuel lower upper 0 (is_some upper) [])

unfoldable pub first : Outcome
first = between none none
