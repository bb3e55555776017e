-- ===== src/Prop/Value.antt =====
-- Property values: crates/kboard-core/src/prop.rs, `Point`, `ElementKind` and `PropValue`.
pub mod Valid
use k_board.Common.{ℕ, ◌*◌, Bool, true, false, ◌&&◌, List, Option, none, some, leb, length, all}
use k_board.Common.Float.{F64, F32, ℤ, is_finite, is_finite_f32, f64_of_int}
use k_board.Common.Text.{Str}

pub record Point : Type 0 where
  pub x : F64
  pub y : F64
  pub pressure : F32

unfoldable pub new_point : F64 → F64 → Point
new_point x y = record { x = x; y = y; pressure = 0 }

unfoldable pub is_finite_point : Point → Bool
is_finite_point p = is_finite p.x && is_finite p.y && is_finite_f32 p.pressure

pub data ElementKind : Type 0 where
  rectangle ellipse diamond line arrow freedraw text frame image : ElementKind

pub data PropValue : Type 0 where
  null : PropValue
  bool : Bool → PropValue
  num : F64 → PropValue
  int : ℤ → PropValue
  text : Str → PropValue
  color : ℕ → PropValue
  kind : ElementKind → PropValue
  points : List Point → PropValue

abbrev pub max_text_bytes : ℕ
max_text_bytes = 64 * 1024

-- `is_valid`.
unfoldable pub is_valid : PropValue → Bool
unfolding is_finite_point is_finite is_finite_f32
is_valid (PropValue.num n) = is_finite n
is_valid (PropValue.points ps) = all is_finite_point ps
is_valid (PropValue.text t) = leb (length t) max_text_bytes
is_valid _ = true

unfoldable pub as_num : PropValue → Option F64
unfolding f64_of_int
as_num (PropValue.num n) = some n
as_num (PropValue.int i) = some (f64_of_int i)
as_num _ = none

unfoldable pub as_bool : PropValue → Option Bool
as_bool (PropValue.bool b) = some b
as_bool _ = none

unfoldable pub as_text : PropValue → Option Str
as_text (PropValue.text t) = some t
as_text _ = none

unfoldable pub as_kind : PropValue → Option ElementKind
as_kind (PropValue.kind k) = some k
as_kind _ = none

unfoldable pub as_points : PropValue → Option (List Point)
as_points (PropValue.points ps) = some ps
as_points _ = none
