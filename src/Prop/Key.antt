-- ===== src/Prop/Key.antt =====
-- Property keys, their order and their wire names: crates/kboard-core/src/prop.rs, `PropKey`.
pub mod Order
pub mod Wire
use k_board.Common.{ℕ, List, [], ◌∷◌, Option, none, some, unwrap_or, if◌then◌else◌}
use k_board.Common.Order.{bytes_ord, cmp_bytes, equals}
use k_board.Common.Text.{Str, ascii, strip_prefix}

-- `text` is the key `Text`; the order of the constructors is that of the source, which the derived
-- `Ord` follows.
pub data PropKey : Type 0 where
  kind x y width height angle stroke fill stroke_width opacity : PropKey
  roughness text font_size font_family points z_index locked deleted group_id : PropKey
  custom : Str → PropKey

-- `as_wire`.
unfoldable pub as_wire : PropKey → Str
as_wire kind = ascii "kind"
as_wire x = ascii "x"
as_wire y = ascii "y"
as_wire width = ascii "w"
as_wire height = ascii "h"
as_wire angle = ascii "angle"
as_wire stroke = ascii "stroke"
as_wire fill = ascii "fill"
as_wire stroke_width = ascii "strokeWidth"
as_wire opacity = ascii "opacity"
as_wire roughness = ascii "roughness"
as_wire text = ascii "text"
as_wire font_size = ascii "fontSize"
as_wire font_family = ascii "fontFamily"
as_wire points = ascii "points"
as_wire z_index = ascii "z"
as_wire locked = ascii "locked"
as_wire deleted = ascii "deleted"
as_wire group_id = ascii "groupId"
as_wire (custom name) = b'~' ∷ name

-- The arms of `from_wire`, in order.
abbrev pub known : List (Str × PropKey)
known =
    (ascii "kind", kind)
    ∷ (ascii "x", x)
    ∷ (ascii "y", y)
    ∷ (ascii "w", width)
    ∷ (ascii "h", height)
    ∷ (ascii "angle", angle)
    ∷ (ascii "stroke", stroke)
    ∷ (ascii "fill", fill)
    ∷ (ascii "strokeWidth", stroke_width)
    ∷ (ascii "opacity", opacity)
    ∷ (ascii "roughness", roughness)
    ∷ (ascii "text", text)
    ∷ (ascii "fontSize", font_size)
    ∷ (ascii "fontFamily", font_family)
    ∷ (ascii "points", points)
    ∷ (ascii "z", z_index)
    ∷ (ascii "locked", locked)
    ∷ (ascii "deleted", deleted)
    ∷ (ascii "groupId", group_id)
    ∷ []

-- The `match` of `from_wire` on the arms that are left; the last arm strips one `~`.
unfoldable pub from_arms : Str → List (Str × PropKey) → PropKey
unfolding bytes_ord cmp_bytes
from_arms other [] = custom (unwrap_or other (strip_prefix b'~' other))
from_arms name ((arm, key) ∷ arms) = if equals name arm then key else from_arms name arms

unfoldable pub from_wire : Str → PropKey
unfolding from_arms
from_wire name = from_arms name known
