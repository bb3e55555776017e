-- ===== src/Element.antt =====
-- The element, a map of registers: crates/kboard-core/src/element.rs.
pub mod Invariant
pub mod Merge
pub mod Write
pub mod Outcome
pub mod MaxStamp
pub mod Id
use k_board.Common.{
  ℕ, Bool, true, false, ◌||◌, List, [], ◌∷◌, map, Option, none, some, unwrap_or, and_then, length,
  if◌then◌else◌, not,
}
use k_board.Common.Order.{greater}
use k_board.Common.Map
use k_board.Common.Map.{Map}
use k_board.Common.Map.Merge.{merge_with}
use k_board.Common.Float.{F64}
use k_board.Common.Text.{Str}
use k_board.Clock.{Hlc}
use k_board.Clock.Order.{hlc_ord}
use k_board.Lww
use k_board.Lww.{Lww}
use k_board.Prop.Key.{PropKey}
use k_board.Prop.Key.Order.{key_ord}
use k_board.Prop.Value.{
  PropValue, ElementKind, Point, is_valid, as_num, as_bool, as_text, as_kind, as_points,
}

-- `ElementId(pub u128)`.
abbrev pub ElementId : Type 0
ElementId = ℕ

abbrev pub Register : Type 0
Register = Lww PropValue

abbrev pub Props : Type 0
Props = Map PropKey Register

pub record Element : Type 0 where
  pub id : ElementId
  pub props : Props

unfoldable pub new : ElementId → Element
new id = record { id = id; props = [] }

unfoldable pub get : Element → PropKey → Option PropValue
get e key = elim (Map.lookup key e.props) [ none ↦ none | some r ↦ some r.value ]

-- `set`: the element afterwards, and whether the write took effect.
unfoldable pub set : Element → PropKey → PropValue → Hlc → Element × Bool
set e key value stamp = elim (is_valid value) [
  | false ↦ (e, false)
  | true ↦ elim (Map.lookup key e.props) [
    | some register ↦
        let (written, changed) = Lww.set register value stamp in
        (record e { props = Map.insert key written e.props }, changed)
    | none ↦ (record e { props = Map.insert key (Lww.new value stamp) e.props }, true)
  ]
]

-- `merge`: the loop over the other element's properties, which merges register by register.
unfoldable pub merge : Element → Element → Element × Bool
merge e other =
    let (props, changed) = merge_with Lww.merge e.props other.props in
    (record e { props = props }, changed)

unfoldable pub is_deleted : Element → Bool
is_deleted e = unwrap_or false (and_then as_bool (get e PropKey.deleted))

-- `Iterator::max`, which folds from the first stamp.
unfoldable pub max_from : Hlc → List Hlc → Hlc
max_from s [] = s
max_from s (t ∷ ts) = max_from (greater s t) ts

unfoldable pub max_of : List Hlc → Option Hlc
max_of [] = none
max_of (s ∷ ss) = some (max_from s ss)

unfoldable pub max_stamp : Element → Option Hlc
max_stamp e = max_of (map (λ r. r.stamp) (Map.values e.props))

unfoldable pub prop_count : Element → ℕ
prop_count e = length e.props

unfoldable pub kind : Element → Option ElementKind
kind e = and_then as_kind (get e PropKey.kind)

unfoldable pub num : Element → PropKey → Option F64
num e key = and_then as_num (get e key)

unfoldable pub num_or : Element → PropKey → F64 → F64
num_or e key fallback = unwrap_or fallback (num e key)

-- `x`, `y`, `width` and `height` fall back on 0.0, whose pattern is 0.
unfoldable pub x : Element → F64
x e = num_or e PropKey.x 0

unfoldable pub y : Element → F64
y e = num_or e PropKey.y 0

unfoldable pub width : Element → F64
width e = num_or e PropKey.width 0

unfoldable pub height : Element → F64
height e = num_or e PropKey.height 0

unfoldable pub text : Element → Option Str
text e = and_then as_text (get e PropKey.text)

unfoldable pub points : Element → Option (List Point)
points e = and_then as_points (get e PropKey.points)

-- An element without a z-order key has the empty one, which sorts lowest.
unfoldable pub z_index : Element → Str
z_index e = unwrap_or [] (and_then as_text (get e PropKey.z_index))
