-- ===== src/Board/Exec/Asked.antt =====
-- Which properties a command is to write: crates/kboard-ffi/src/board.rs, `exec`.
use mathlib.Core.List.{append-nil}
use k_board.Common.{
  ℕ, List, [], ◌∷◌, ◌++◌, Option, none, some, map, ◌≡◌, refl, ap, sym, not, ◌||◌, ◌∙◌, arith, inl,
  inr, Bool-cases,
}
use k_board.Common.Float.{F64, is_finite}
use k_board.Common.Float.Arith.{less_or_equal, clamp}
use k_board.Clock.{HlcGenerator, tick}
use k_board.Prop.Key.{PropKey}
use k_board.Prop.Value.{PropValue}
use k_board.Element.{Element, ElementId}
use k_board.Document.{live}
use k_board.Op.{Op, StampedOp, upsert, delete_each}
use k_board.Board.{Board, default_opacity}
use k_board.Board.Command.{Command, ok}
use k_board.Board.Exec.{
  Assigned, geometry_props, style_props, pushed, drawable, visible, path_points,
}

-- The property that an operation writes, and nothing for a tombstone.
abbrev pub written : StampedOp → Option PropKey
written o = elim o.op [ Op.set id key value ↦ some key | Op.delete id ↦ none ]

-- The property, if a value is given for it.
abbrev pub noted : {A : Type 0} → PropKey → Option A → List (Option PropKey)
noted key none = []
noted key (some a) = some key ∷ []

-- The properties that each command is to write, in their order, and the tombstones.
abbrev pub asked : Board → Command → List (Option PropKey)
asked b (Command.add kind x y w h stroke fill stroke_width) =
    some PropKey.kind
    ∷ some PropKey.x
    ∷ some PropKey.y
    ∷ some PropKey.width
    ∷ some PropKey.height
    ∷ some PropKey.stroke
    ∷ some PropKey.fill
    ∷ some PropKey.stroke_width
    ∷ some PropKey.z_index
    ∷ []
asked b (Command.draw points stroke stroke_width) =
    some PropKey.kind
    ∷ some PropKey.x
    ∷ some PropKey.y
    ∷ some PropKey.width
    ∷ some PropKey.height
    ∷ some PropKey.points
    ∷ some PropKey.stroke
    ∷ some PropKey.stroke_width
    ∷ some PropKey.z_index
    ∷ []
asked b (Command.write x y w h text font_size stroke) =
    some PropKey.kind
    ∷ some PropKey.x
    ∷ some PropKey.y
    ∷ some PropKey.width
    ∷ some PropKey.height
    ∷ some PropKey.text
    ∷ some PropKey.font_size
    ∷ some PropKey.stroke
    ∷ some PropKey.z_index
    ∷ []
asked b (Command.set_text id text w h) =
    some PropKey.text ∷ some PropKey.width ∷ some PropKey.height ∷ []
asked b (Command.move id x y) = some PropKey.x ∷ some PropKey.y ∷ []
asked b (Command.resize id w h) = some PropKey.width ∷ some PropKey.height ∷ []
asked b (Command.geometry id x y w h angle font_size points) =
    some PropKey.x
    ∷ some PropKey.y
    ∷ some PropKey.width
    ∷ some PropKey.height
    ∷ (noted PropKey.angle angle
        ++ (noted PropKey.font_size font_size ++ noted PropKey.points points))
asked b (Command.style id stroke fill stroke_width opacity) =
    noted PropKey.stroke stroke
    ++ (noted PropKey.fill fill
        ++ (noted PropKey.stroke_width stroke_width ++ noted PropKey.opacity opacity))
asked b (Command.delete id) = none ∷ []
asked b Command.clear = map (λ e. none) (live b.document)

pub written-upsert :
    (id : ElementId) (props : Assigned) (clock : HlcGenerator) (now : ℕ)
    → map written (upsert id props clock now).1 ≡ map (λ p. some p.0) props
unfolding upsert
written-upsert id [] clock now = refl
written-upsert id (p ∷ props) clock now =
    ap (λ ks. some p.0 ∷ ks) (written-upsert id props (tick clock now).0 now)

pub written-delete_each :
    (es : List Element) (clock : HlcGenerator) (now : ℕ)
    → map written (delete_each es clock now).1 ≡ map (λ e. none) es
unfolding delete_each
written-delete_each [] clock now = refl
written-delete_each (e ∷ es) clock now =
    ap (λ ks. none ∷ ks) (written-delete_each es (tick clock now).0 now)

keys-pushed :
    {A : Type 0}
    → (key : PropKey) (value : A → PropValue) (a : Option A) (props : Assigned)
    → map (λ p. some p.0) (pushed key value a props) ≡ noted key a ++ map (λ p. some p.0) props
keys-pushed key value none props = refl
keys-pushed key value (some a) props = refl

-- A value that passes a check is given exactly if it was.
pub noted-drawable :
    (key : PropKey) (o q : Option F64) → drawable o ≡ ok q → noted key q ≡ noted key o
noted-drawable key none q h = ground (arith, h)
noted-drawable key (some w) q h = elim (Bool-cases (not (is_finite w) || less_or_equal w 0)) [
  | inl bad ↦ absurd (cc (rw (bad, drawable) at h))
  | inr good ↦ let same : some w ≡ q = cc (rw (good, drawable) at h) in ap (noted key) (sym same)
]

pub noted-visible :
    (key : PropKey) (o q : Option F64) → visible o ≡ ok q → noted key q ≡ noted key o
noted-visible key none q h = ground (arith, h)
noted-visible key (some a) q h = elim (Bool-cases (is_finite a)) [
  | inl good ↦
      let same : some (clamp a 0 default_opacity) ≡ q = cc (rw (good, visible) at h) in
      ap (noted key) (sym same)
  | inr bad ↦ absurd (cc (rw (bad, visible) at h))
]

pub keys-style :
    (stroke fill : Option ℕ) (stroke_width opacity : Option F64)
    → map (λ p. some p.0) (style_props stroke fill stroke_width opacity)
      ≡ noted PropKey.stroke stroke
        ++ (noted PropKey.fill fill
            ++ (noted PropKey.stroke_width stroke_width ++ noted PropKey.opacity opacity))
unfolding style_props
keys-style stroke fill stroke_width opacity =
    keys-pushed PropKey.stroke PropValue.color stroke _
    ∙ ap (λ ks. noted PropKey.stroke stroke ++ ks)
        (keys-pushed PropKey.fill PropValue.color fill _
          ∙ ap (λ ks. noted PropKey.fill fill ++ ks)
              (keys-pushed PropKey.stroke_width PropValue.num stroke_width _
                ∙ ap (λ ks. noted PropKey.stroke_width stroke_width ++ ks)
                    (keys-pushed PropKey.opacity PropValue.num opacity [] ∙ append-nil _)))

pub keys-geometry :
    (x y w h : F64) (angle font_size : Option F64) (points : Option (List (F64 × F64)))
    → map (λ p. some p.0) (geometry_props x y w h angle font_size points)
      ≡ some PropKey.x
        ∷ some PropKey.y
        ∷ some PropKey.width
        ∷ some PropKey.height
        ∷ (noted PropKey.angle angle
            ++ (noted PropKey.font_size font_size ++ noted PropKey.points points))
unfolding geometry_props
keys-geometry x y w h angle font_size points =
    ap (λ ks. some PropKey.x ∷ some PropKey.y ∷ some PropKey.width ∷ some PropKey.height ∷ ks)
      (keys-pushed PropKey.angle PropValue.num angle _
        ∙ ap (λ ks. noted PropKey.angle angle ++ ks)
            (keys-pushed PropKey.font_size PropValue.num font_size _
              ∙ ap (λ ks. noted PropKey.font_size font_size ++ ks)
                  (keys-pushed PropKey.points (λ path. PropValue.points (path_points path)) points
                      []
                    ∙ append-nil _)))
