-- ===== src/Board/Command.antt =====
-- The commands of a host, and the checks of their texts: crates/kboard-ffi/src/board.rs, `Command`,
-- `BoardError`, `validate_text` and `parse_kind`.
use k_board.Common.{
  ℕ, Bool, true, false, ◌&&◌, ◌||◌, List, [], ◌∷◌, Option, none, some, length, ltb, leb, ◌==◌,
  if◌then◌else◌,
}
use k_board.Common.Order.{bytes_ord, cmp_bytes, equals}
use k_board.Common.Float.{F64}
use k_board.Common.Text.{Str, ascii}
use k_board.Prop.Value.{ElementKind, max_text_bytes}

-- What the text of a `BadCommand` is formatted from.
pub data Detail : Type 0 where
  unknown_kind : Str → Detail
  empty_stroke empty_text : Detail
  text_too_long : ℕ → Detail
  undrawable_width : F64 → Detail
  opacity_not_a_number : Detail

pub data BoardError : Type 0 where
  bad_command : Detail → BoardError
  unknown_element : BoardError

-- A path is a list of pairs; the optional fields of a style or a geometry are options.
pub data Command : Type 0 where
  add : (kind : Str) (x y w h : F64) (stroke fill : ℕ) (stroke_width : F64) → Command
  draw : (points : List (F64 × F64)) (stroke : ℕ) (stroke_width : F64) → Command
  write : (x y w h : F64) (text : Str) (font_size : F64) (stroke : ℕ) → Command
  set_text : (id text : Str) (w h : F64) → Command
  move : (id : Str) (x y : F64) → Command
  resize : (id : Str) (w h : F64) → Command
  geometry :
      (id : Str) (x y w h : F64) (angle font_size : Option F64) (points : Option (List (F64 × F64)))
      → Command
  style : (id : Str) (stroke fill : Option ℕ) (stroke_width opacity : Option F64) → Command
  delete : (id : Str) → Command
  clear : Command

-- 2.0.
abbrev pub default_stroke_width : F64
default_stroke_width = 4611686018427387904

abbrev pub kinds : List (Str × ElementKind)
kinds =
    (ascii "rectangle", ElementKind.rectangle)
    ∷ (ascii "ellipse", ElementKind.ellipse)
    ∷ (ascii "diamond", ElementKind.diamond)
    ∷ (ascii "line", ElementKind.line)
    ∷ (ascii "arrow", ElementKind.arrow)
    ∷ (ascii "freedraw", ElementKind.freedraw)
    ∷ (ascii "text", ElementKind.text)
    ∷ (ascii "frame", ElementKind.frame)
    ∷ []

pub data Checked (A : Type 0) : Type 0 where
  ok : A → Checked A
  err : BoardError → Checked A

-- The `match` of `parse_kind` on the arms that are left.
unfoldable pub kind_of : Str → List (Str × ElementKind) → Checked ElementKind
unfolding bytes_ord cmp_bytes
kind_of name [] = err (bad_command (unknown_kind name))
kind_of name ((arm, kind) ∷ arms) = if equals name arm then ok kind else kind_of name arms

unfoldable pub parse_kind : Str → Checked ElementKind
unfolding kind_of
parse_kind name = kind_of name kinds

unfoldable pub is_line_end : ℕ → Bool
is_line_end b = b == 10 || b == 13

-- `trim_end_matches(['\n', '\r'])`.
unfoldable pub trim_end : Str → Str
unfolding is_line_end
trim_end [] = []
trim_end (b ∷ s) =
    let rest = trim_end s in
    elim rest [ [] ↦ if is_line_end b then [] else b ∷ [] | c ∷ t ↦ b ∷ c ∷ t ]

-- `char::is_whitespace`, on the bytes of a character of one, two or three bytes.
unfoldable pub is_blank1 : ℕ → Bool
is_blank1 a = leb 9 a && leb a 13 || a == 32

unfoldable pub is_blank2 : ℕ → ℕ → Bool
is_blank2 a b = a == 194 && (b == 133 || b == 160)

unfoldable pub is_blank3 : ℕ → ℕ → ℕ → Bool
is_blank3 a b c =
    a == 225 && b == 154 && c == 128
    || a == 226 && b == 128 && (leb 128 c && leb c 138 || c == 168 || c == 169 || c == 175)
    || a == 226 && b == 129 && c == 159
    || a == 227 && b == 128 && c == 128

-- The bytes of a character begun, after one more; nothing where it is no white space.
unfoldable pub blank_step : List ℕ → ℕ → Option (List ℕ)
unfolding is_blank1 is_blank2 is_blank3
blank_step [] a =
    if is_blank1 a
    then some []
    else if a == 194 || a == 225 || a == 226 || a == 227
    then some (a ∷ [])
    else none
blank_step (a ∷ []) b =
    if is_blank2 a b then some [] else if a == 194 then none else some (a ∷ b ∷ [])
blank_step (a ∷ b ∷ _) c = if is_blank3 a b c then some [] else none

-- `trim().is_empty()`: every character is white space.
unfoldable pub is_blank_from : List ℕ → Str → Bool
unfolding blank_step
is_blank_from [] [] = true
is_blank_from (a ∷ pending) [] = false
is_blank_from pending (b ∷ s) = elim (blank_step pending b) [
  | none ↦ false
  | some next ↦ is_blank_from next s
]

unfoldable pub is_blank : Str → Bool
is_blank s = is_blank_from [] s

unfoldable pub validate_text : Str → Checked Str
validate_text text =
    let trimmed = trim_end text in
    if is_blank trimmed
    then err (bad_command empty_text)
    else if ltb max_text_bytes (length trimmed)
    then err (bad_command (text_too_long (length trimmed)))
    else ok trimmed
