-- ===== src/Board/Scene.antt =====
-- What a host draws, and the ids it sends back: crates/kboard-ffi/src/board.rs, `scene` and
-- `require`.
use k_board.Common.{ℕ, ◌^◌, ◌<◌, List, Option, none, some, map, map_or, ◌≡◌, ap, ◌∙◌}
use k_board.Common.Float.{F64}
use k_board.Common.Text.{Str, ascii}
use k_board.Prop.Key.{PropKey}
use k_board.Prop.Value.{PropValue, ElementKind, Point}
use k_board.Element
use k_board.Element.{Element, ElementId}
use k_board.Element.Id.{to_hex, from_hex, from_hex-to_hex}
use k_board.Document
use k_board.Document.{ordered}
use k_board.Board.{Board, default_font_size, default_opacity}
use k_board.Board.Command.{BoardError, unknown_element, default_stroke_width}

-- `Result<ElementId, BoardError>`.
pub data Required : Type 0 where
  ok : ElementId → Required
  err : BoardError → Required

pub record SceneItem : Type 0 where
  pub id : Str
  pub kind : Str
  pub x : F64
  pub y : F64
  pub w : F64
  pub h : F64
  pub stroke : ℕ
  pub fill : ℕ
  pub stroke_width : F64
  pub z : Str
  pub points : Option (List (F64 × F64))
  pub text : Option Str
  pub font_size : F64
  pub angle : F64
  pub opacity : F64

unfoldable pub colour : Option PropValue → ℕ
colour (some (PropValue.color packed)) = packed
colour _ = 0

unfoldable pub kind_name : ElementKind → Str
kind_name ElementKind.rectangle = ascii "rectangle"
kind_name ElementKind.ellipse = ascii "ellipse"
kind_name ElementKind.diamond = ascii "diamond"
kind_name ElementKind.line = ascii "line"
kind_name ElementKind.arrow = ascii "arrow"
kind_name ElementKind.freedraw = ascii "freedraw"
kind_name ElementKind.text = ascii "text"
kind_name ElementKind.frame = ascii "frame"
kind_name ElementKind.image = ascii "image"

abbrev pub path_of : Option (List Point) → Option (List (F64 × F64))
path_of none = none
path_of (some path) = some (map (λ p. (p.x, p.y)) path)

unfoldable pub scene_item : Element → SceneItem
scene_item e = record {
  id = to_hex e.id;
  kind = map_or (ascii "rectangle") kind_name (Element.kind e);
  x = Element.x e;
  y = Element.y e;
  w = Element.width e;
  h = Element.height e;
  stroke = colour (Element.get e PropKey.stroke);
  fill = colour (Element.get e PropKey.fill);
  stroke_width = Element.num_or e PropKey.stroke_width default_stroke_width;
  z = Element.z_index e;
  points = path_of (Element.points e);
  text = Element.text e;
  font_size = Element.num_or e PropKey.font_size default_font_size;
  angle = Element.num_or e PropKey.angle 0;
  opacity = Element.num_or e PropKey.opacity default_opacity;
}

unfoldable pub scene : Board → List SceneItem
scene b = map scene_item (ordered b.document)

-- The end of `require`: whether the document holds the element.
abbrev pub present : ElementId → Option Element → Required
present id none = err unknown_element
present id (some e) = ok id

abbrev pub required : Board → Option ElementId → Required
required b none = err unknown_element
required b (some id) = present id (Document.get b.document id)

unfoldable pub require : Board → Str → Required
require b id = required b (from_hex id)

-- The id that the scene reports of an element is accepted back, as that element, while the document
-- holds it and the id has 128 bits.
pub require-scene_item :
    (b : Board) (e : Element)
    → e.id < 2 ^ 128
    → Document.get b.document e.id ≡ some e
    → require b (scene_item e).id ≡ ok e.id
unfolding require scene_item
require-scene_item b e small held =
    ap (required b) (from_hex-to_hex e.id small) ∙ ap (present e.id) held
