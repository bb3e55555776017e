-- ===== src/Board/Exec.antt =====
-- Executing the commands of a host: crates/kboard-ffi/src/board.rs, `exec`.
pub mod Cases
pub mod Asked
pub mod Effect
pub mod Undo
pub mod Behind
pub mod Clear
pub mod Redo
pub mod Reapplies
pub mod Restores
use k_board.Common.{
  ℕ, Bool, true, false, not, ◌&&◌, ◌||◌, List, [], ◌∷◌, ◌++◌, Option, none, some, map,
  if◌then◌else◌,
}
use k_board.Common.Float.{F64, is_finite}
use k_board.Common.Float.Arith.{
  less_or_equal, clamp, float_min, float_max, float_sub, largest, smallest,
}
use k_board.Common.Text.{Str}
use k_board.Clock.{tick}
use k_board.Prop.Key.{PropKey}
use k_board.Prop.Value.{PropValue, ElementKind, Point, new_point}
use k_board.Element.{ElementId}
use k_board.Element.Id.{to_hex}
use k_board.Document.{z_index_for_top}
use k_board.Frac.{Outcome, done}
use k_board.Op
use k_board.Op.{Op, StampedOp, upsert}
use k_board.Board.{
  Board, Change, Reversal, mint_id, record_change, capture, creation, mutation, default_opacity,
}
use k_board.Board.Command.{
  BoardError, bad_command, empty_stroke, undrawable_width, opacity_not_a_number, Command, Checked,
  ok, err, parse_kind, validate_text,
}
use k_board.Board.Scene
use k_board.Board.Scene.{Required, require}

abbrev pub Assigned : Type 0
Assigned = List (PropKey × PropValue)

-- What `exec` returns.
abbrev pub Ran : Type 0
Ran = Board × Checked (Option Str)

-- The text of a key. That `between` returns one is shown of it, so that the other cases do not
-- arise.
abbrev pub key_text : Outcome → Str
key_text (done key) = key
key_text _ = []

-- An element is created: a new id, and the properties with a z-order key on top.
unfoldable pub create : Board → (Str → Assigned) → ℕ → Ran
create b assigned now =
    let (minted, id) = mint_id b in
    let props = assigned (key_text (z_index_for_top minted.document)) in
    let (clock, ops) = upsert id props minted.clock now in
    (record_change (record minted { clock = clock }) ops (creation id props), ok (some (to_hex id)))

-- An element is changed: what the properties were is captured first.
unfoldable pub revise : Board → Str → ElementId → Assigned → ℕ → Ran
revise b id element props now =
    let backward = capture b element (map (λ p. p.0) props) in
    let (clock, ops) = upsert element props b.clock now in
    (record_change (record b { clock = clock }) ops (mutation element backward props), ok (some id))

-- `require(id)?`, and what follows it.
abbrev pub given_element : Board → Required → (ElementId → Ran) → Ran
given_element b (Required.ok element) next = next element
given_element b (Required.err e) next = (b, err e)

-- `?` at a check.
abbrev pub given : {A : Type 0} → Board → Checked A → (A → Ran) → Ran
given b (ok a) next = next a
given b (err e) next = (b, err e)

abbrev pub path_points : List (F64 × F64) → List Point
path_points path = map (λ p. new_point p.0 p.1) path

-- The folds of the box of a path.
unfoldable pub least : (Point → F64) → F64 → List Point → F64
least at seen [] = seen
least at seen (p ∷ ps) = least at (float_min seen (at p)) ps

unfoldable pub greatest : (Point → F64) → F64 → List Point → F64
greatest at seen [] = seen
greatest at seen (p ∷ ps) = greatest at (float_max seen (at p)) ps

unfoldable pub add_props : ElementKind → F64 → F64 → F64 → F64 → ℕ → ℕ → F64 → Str → Assigned
add_props kind x y w h stroke fill stroke_width z =
    (PropKey.kind, PropValue.kind kind)
    ∷ (PropKey.x, PropValue.num x)
    ∷ (PropKey.y, PropValue.num y)
    ∷ (PropKey.width, PropValue.num w)
    ∷ (PropKey.height, PropValue.num h)
    ∷ (PropKey.stroke, PropValue.color stroke)
    ∷ (PropKey.fill, PropValue.color fill)
    ∷ (PropKey.stroke_width, PropValue.num stroke_width)
    ∷ (PropKey.z_index, PropValue.text z)
    ∷ []

unfoldable pub stroke_props : List Point → ℕ → F64 → Str → Assigned
stroke_props path stroke stroke_width z =
    let min_x = least (λ p. p.x) largest path in
    let min_y = least (λ p. p.y) largest path in
    let max_x = greatest (λ p. p.x) smallest path in
    let max_y = greatest (λ p. p.y) smallest path in
    (PropKey.kind, PropValue.kind ElementKind.freedraw)
    ∷ (PropKey.x, PropValue.num min_x)
    ∷ (PropKey.y, PropValue.num min_y)
    ∷ (PropKey.width, PropValue.num (float_sub max_x min_x))
    ∷ (PropKey.height, PropValue.num (float_sub max_y min_y))
    ∷ (PropKey.points, PropValue.points path)
    ∷ (PropKey.stroke, PropValue.color stroke)
    ∷ (PropKey.stroke_width, PropValue.num stroke_width)
    ∷ (PropKey.z_index, PropValue.text z)
    ∷ []

unfoldable pub text_props : F64 → F64 → F64 → F64 → Str → F64 → ℕ → Str → Assigned
text_props x y w h text font_size stroke z =
    (PropKey.kind, PropValue.kind ElementKind.text)
    ∷ (PropKey.x, PropValue.num x)
    ∷ (PropKey.y, PropValue.num y)
    ∷ (PropKey.width, PropValue.num w)
    ∷ (PropKey.height, PropValue.num h)
    ∷ (PropKey.text, PropValue.text text)
    ∷ (PropKey.font_size, PropValue.num font_size)
    ∷ (PropKey.stroke, PropValue.color stroke)
    ∷ (PropKey.z_index, PropValue.text z)
    ∷ []

-- `if let Some(value) = … { props.push(…) }`, from the last to the first.
abbrev pub pushed : {A : Type 0} → PropKey → (A → PropValue) → Option A → Assigned → Assigned
pushed key value none props = props
pushed key value (some a) props = (key, value a) ∷ props

unfoldable pub geometry_props :
    F64 → F64 → F64 → F64 → Option F64 → Option F64 → Option (List (F64 × F64)) → Assigned
geometry_props x y w h angle font_size points =
    (PropKey.x, PropValue.num x)
    ∷ (PropKey.y, PropValue.num y)
    ∷ (PropKey.width, PropValue.num w)
    ∷ (PropKey.height, PropValue.num h)
    ∷ pushed PropKey.angle PropValue.num angle (
        pushed PropKey.font_size PropValue.num font_size
          (pushed PropKey.points (λ path. PropValue.points (path_points path)) points []))

-- The checks of `Style`, in their order.
abbrev pub drawable : Option F64 → Checked (Option F64)
drawable none = ok none
drawable (some width) =
    if not (is_finite width) || less_or_equal width 0
    then err (bad_command (undrawable_width width))
    else ok (some width)

abbrev pub visible : Option F64 → Checked (Option F64)
visible none = ok none
visible (some alpha) =
    if is_finite alpha
    then ok (some (clamp alpha 0 default_opacity))
    else err (bad_command opacity_not_a_number)

unfoldable pub style_props : Option ℕ → Option ℕ → Option F64 → Option F64 → Assigned
style_props stroke fill stroke_width opacity = pushed PropKey.stroke PropValue.color stroke (
    pushed PropKey.fill PropValue.color fill (
      pushed PropKey.stroke_width PropValue.num stroke_width
        (pushed PropKey.opacity PropValue.num opacity [])))

unfoldable pub erase : Board → Str → ElementId → ℕ → Ran
erase b id element now =
    let (clock, stamp) = tick b.clock now in
    let change : Change = record {
      backward = Reversal.set element PropKey.deleted (PropValue.bool false) ∷ [];
      forward = Reversal.delete element ∷ [];
    } in
    let op : StampedOp = record { stamp = stamp; op = Op.delete element } in
    (record_change (record b { clock = clock }) (op ∷ []) change, ok (some id))

unfoldable pub erase_all : Board → ℕ → Ran
erase_all b now =
    let (clock, ops) = Op.clear b.document b.clock now in
    let cleared = map (λ stamped. Op.element stamped.op) ops in
    let change : Change = record {
      backward = map (λ e. Reversal.set e PropKey.deleted (PropValue.bool false)) cleared;
      forward = map Reversal.delete cleared;
    } in
    (record_change (record b { clock = clock }) ops change, ok none)

unfoldable pub exec : Board → Command → ℕ → Ran
exec b (Command.add kind x y w h stroke fill stroke_width) now =
    given b (parse_kind kind)
      λ element_kind. create b (add_props element_kind x y w h stroke fill stroke_width) now
exec b (Command.draw [] stroke stroke_width) now = (b, err (bad_command empty_stroke))
exec b (Command.draw (p ∷ points) stroke stroke_width) now =
    create b (stroke_props (path_points (p ∷ points)) stroke stroke_width) now
exec b (Command.write x y w h text font_size stroke) now =
    given b (validate_text text) λ text. create b (text_props x y w h text font_size stroke) now
exec b (Command.set_text id text w h) now = given b (validate_text text) λ text.
    given_element b (require b id) λ element.
      revise b id element
        ((PropKey.text, PropValue.text text)
          ∷ (PropKey.width, PropValue.num w)
          ∷ (PropKey.height, PropValue.num h)
          ∷ [])
        now
exec b (Command.move id x y) now = given_element b (require b id) λ element.
    revise b id element ((PropKey.x, PropValue.num x) ∷ (PropKey.y, PropValue.num y) ∷ []) now
exec b (Command.resize id w h) now = given_element b (require b id) λ element.
    revise b id element ((PropKey.width, PropValue.num w) ∷ (PropKey.height, PropValue.num h) ∷ [])
      now
exec b (Command.geometry id x y w h angle font_size points) now =
    given_element b (require b id)
      λ element. revise b id element (geometry_props x y w h angle font_size points) now
exec b (Command.style id stroke fill stroke_width opacity) now =
    given_element b (require b id) λ element. given b (drawable stroke_width) λ stroke_width.
      given b (visible opacity)
        λ opacity. revise b id element (style_props stroke fill stroke_width opacity) now
exec b (Command.delete id) now = given_element b (require b id) λ element. erase b id element now
exec b Command.clear now = erase_all b now
