-- ===== src/Tests/Keys.antt =====
-- The theorems on z-order keys and property keys at concrete inputs: crates/kboard-core/src.
use k_board.Common.{true, ◌||◌, ◌∷◌, All, some, ◌≡◌, refl, if◌then◌else◌}
use k_board.Common.Order.{bytes_ord, cmp_bytes, at_most, Before}
use k_board.Common.Text.{Str, ascii, from_utf8}
use k_board.Prop.Key.{PropKey, as_wire, from_wire, known}
use k_board.Prop.Key.Wire.{from_wire-as_wire, as_wire-from_wire, is_arm, has_prefix}
use k_board.Element
use k_board.Element.{Element}
use k_board.Common.Map
use k_board.Common.Order.{nat_ord}
use k_board.Clock.{cmp_hlc}
use k_board.Clock.Order.{hlc_ord}
use k_board.Lww
use k_board.Op
use k_board.Op.{apply_all}
use k_board.Prop.Key.Order.{key_ord}
use k_board.Prop.Value.{is_valid, as_bool}
use k_board.Document
use k_board.Document.{Document, live, z_index_for_top}
use k_board.Document.Paint.{z_index_for_top_lem}
use k_board.Frac.{
  done, between, first, search_digit, effective_upper, finish, value_of, digit_at, high_at,
}
use k_board.Frac.Digit.{Digits, is_digit}
use k_board.Frac.Between.{IsKey}
use k_board.Frac.Bounds.{between_returns-IsKey, between_in_order, IsAbove}
use k_board.Tests.Data.{left}

program : Unit {0}
unfolding from_utf8 between first search_digit effective_upper finish value_of digit_at high_at
    cmp_bytes bytes_ord is_digit
program = tt

first_is_v : first ≡ done (ascii "V")
unfolding program
first_is_v = refl

between_neighbours : between (some (ascii "V")) (some (ascii "W")) ≡ done (ascii "VV")
unfolding program
between_neighbours = refl

between_returns-IsKey_example :
    (k : Str) × (between (some (ascii "V")) (some (ascii "!")) ≡ done k) × IsKey k
between_returns-IsKey_example = between_returns-IsKey (some (ascii "V")) (some (ascii "!"))

v_digits : Digits (ascii "V")
unfolding program
v_digits = (refl, tt)

w_digits : Digits (ascii "W")
unfolding program
w_digits = (refl, tt)

v_below_w : Before (ascii "V") (ascii "W")
unfolding program
v_below_w = refl

w_not_below_v : at_most (ascii "V") (ascii "W") ≡ true
unfolding program
w_not_below_v = refl

between_in_order_example :
    (k : Str) × (between (some (ascii "V")) (some (ascii "W")) ≡ done k)
    × IsAbove (some (ascii "V")) k
    × Before k (ascii "W")
between_in_order_example =
    between_in_order (some (ascii "V")) (ascii "W") v_digits w_digits refl v_below_w

board_program : Unit {0}
unfolding program apply_all Op.apply Op.apply_op Document.new Document.entry_set Document.entry
    Element.new Element.set is_valid Map.lookup Map.insert Map.values Lww.new Lww.set cmp_hlc
    hlc_ord nat_ord key_ord live Element.is_deleted Element.z_index Element.get as_bool
board_program = tt

left_digits : All (λ e. Digits (Element.z_index e)) (live left)
unfolding board_program
left_digits = (tt, tt)

z_index_for_top_lem_example :
    (k : Str) × (z_index_for_top left ≡ done k)
    × IsKey k
    × All (λ e. Before (Element.z_index e) k) (live left)
z_index_for_top_lem_example = z_index_for_top_lem left left_digits

from_wire-as_wire_example :
    from_wire (as_wire (PropKey.custom (ascii "kind"))) ≡ PropKey.custom (ascii "kind")
from_wire-as_wire_example = from_wire-as_wire (PropKey.custom (ascii "kind"))

as_wire-from_wire_example : as_wire (from_wire (ascii "tags")) ≡ (
    if is_arm (ascii "tags") known || has_prefix b'~' (ascii "tags")
    then ascii "tags"
    else b'~' ∷ ascii "tags")
as_wire-from_wire_example = as_wire-from_wire (ascii "tags")
