-- ===== src/Board/Exec/Cases.antt =====
-- What a command can come to: crates/kboard-ffi/src/board.rs, `exec`.
use k_board.Common.{ℕ, ◌+◌, ◌≤◌, List, [], ◌∷◌, Option, none, some, length, arith, Option-cases}
use k_board.Common.Float.{F64}
use k_board.Prop.Key.{PropKey}
use k_board.Prop.Value.{PropValue}
use k_board.Common.Text.{Str}
use k_board.Element.{ElementId}
use k_board.Board.{Board}
use k_board.Board.Command.{BoardError, Command, Checked, err, parse_kind, validate_text}
use k_board.Board.Scene.{Required, require}
use k_board.Board.Exec.{
  pushed, geometry_props, style_props, path_points, add_props, stroke_props, text_props, Assigned,
  Ran, create, revise, erase, erase_all, given, given_element, exec, drawable, visible,
}

-- No command writes more properties than this to an element.
abbrev pub most_props : ℕ
most_props = 9

length-pushed :
    {A : Type 0}
    → (key : PropKey) (value : A → PropValue) (a : Option A) (props : Assigned)
    → length (pushed key value a props) ≤ 1 + length props
length-pushed key value none props = omega arith
length-pushed key value (some a) props = omega arith

geometry_short :
    (x y w h : F64) (angle font_size : Option F64) (points : Option (List (F64 × F64)))
    → length (geometry_props x y w h angle font_size points) ≤ most_props
unfolding geometry_props
geometry_short x y w h angle font_size points =
    let value : List (F64 × F64) → PropValue = λ path. PropValue.points (path_points path) in
    let a = length-pushed PropKey.points value points [] in
    let rest = pushed PropKey.points value points [] in
    let b = length-pushed PropKey.font_size PropValue.num font_size rest in
    let c =
      length-pushed PropKey.angle PropValue.num angle
        (pushed PropKey.font_size PropValue.num font_size rest) in
    omega (arith, a, b, c)

style_short :
    (stroke fill : Option ℕ) (stroke_width opacity : Option F64)
    → length (style_props stroke fill stroke_width opacity) ≤ most_props
unfolding style_props
style_short stroke fill stroke_width opacity =
    ground (
      arith,
      Option-cases stroke,
      Option-cases fill,
      Option-cases stroke_width,
      Option-cases opacity,
    )

-- What holds of a refusal, of a creation, of a revision, of an erasure and of a clearing holds of
-- every command.
module _ (b : Board) (now : ℕ) (P : Ran → Type 0) (refused : (e : BoardError) → P (b, err e))
    (created : (assigned : Str → Assigned)
      → ((z : Str) → length (assigned z) ≤ most_props)
      → P (create b assigned now))
    (revised : (id : Str) (element : ElementId) (props : Assigned)
      → length props ≤ most_props
      → P (revise b id element props now))
    (erased : (id : Str) (element : ElementId) → P (erase b id element now))
    (cleared : P (erase_all b now)) where
  of_given :
      {A : Type 0}
      → (checked : Checked A) (next : A → Ran) → ((a : A) → P (next a))
      → P (given b checked next)
  of_given (Checked.ok a) next f = f a
  of_given (Checked.err e) next f = refused e

  of_element :
      (required : Required) (next : ElementId → Ran)
      → ((a : ElementId) → P (next a))
      → P (given_element b required next)
  of_element (Required.ok a) next f = f a
  of_element (Required.err e) next f = refused e

  pub exec_cases : (command : Command) → P (exec b command now)
  unfolding exec add_props stroke_props text_props
  exec_cases (Command.add kind x y w h stroke fill stroke_width) =
      of_given (parse_kind kind) _ (λ k. created _ (λ z. omega arith))
  exec_cases (Command.draw [] stroke stroke_width) = refused _
  exec_cases (Command.draw (p ∷ points) stroke stroke_width) = created _ (λ z. omega arith)
  exec_cases (Command.write x y w h text font_size stroke) =
      of_given (validate_text text) _ (λ t. created _ (λ z. omega arith))
  exec_cases (Command.set_text id text w h) =
      of_given (validate_text text) _
        (λ t. of_element (require b id) _ (λ e. revised id e _ (omega arith)))
  exec_cases (Command.move id x y) = of_element (require b id) _ (λ e. revised id e _ (omega arith))
  exec_cases (Command.resize id w h) =
      of_element (require b id) _ (λ e. revised id e _ (omega arith))
  exec_cases (Command.geometry id x y w h angle font_size points) =
      of_element (require b id) _
        (λ e. revised id e _ (geometry_short x y w h angle font_size points))
  exec_cases (Command.style id stroke fill stroke_width opacity) = of_element (require b id) _ (λ e.
      of_given (drawable stroke_width) _ (λ width.
        of_given (visible opacity) _
          (λ alpha. revised id e _ (style_short stroke fill width alpha))))
  exec_cases (Command.delete id) = of_element (require b id) _ (λ e. erased id e)
  exec_cases Command.clear = cleared
