-- ===== src/Tests/Data.antt =====
-- The data of the tests: two actors' operations on a rectangle, as in
-- crates/kboard-core/tests/convergence.rs.
use k_board.Common.{[], ◌∷◌}
use k_board.Common.Float.{ℤ}
use k_board.Common.Text.{ascii}
use k_board.Clock.{Hlc, HlcGenerator}
use k_board.Prop.Key.{PropKey}
use k_board.Prop.Value.{PropValue}
use k_board.Element
use k_board.Element.{Element, ElementId, Register}
use k_board.Document
use k_board.Document.{Document, ScopeId}
use k_board.Op
use k_board.Op.{StampedOp, apply_all}

abbrev pub board : ScopeId
board = ascii "t/b"

abbrev pub elsewhere : ScopeId
elsewhere = ascii "t"

abbrev pub rectangle : ElementId
rectangle = 7

abbrev pub early : Hlc
early = record { wall = 1000; counter = 0; actor = 1 }

abbrev pub late : Hlc
late = record { wall = 1000; counter = 1; actor = 2 }

abbrev pub three : PropValue
three = PropValue.int (ℤ.pos 3)

abbrev pub four : PropValue
four = PropValue.int (ℤ.pos 4)

abbrev pub moved : StampedOp
moved = record { stamp = early; op = Op.Op.set rectangle PropKey.x three }

abbrev pub moved_again : StampedOp
moved_again = record { stamp = late; op = Op.Op.set rectangle PropKey.x four }

abbrev pub deleted : StampedOp
deleted = record { stamp = late; op = Op.Op.delete rectangle }

abbrev pub empty_board : Document
empty_board = Document.new board

-- The documents of two replicas.
abbrev pub left : Document
left = (apply_all empty_board (moved ∷ [])).0

abbrev pub right : Document
right = (apply_all empty_board (moved_again ∷ [])).0

abbrev pub blank : Element
blank = Element.new rectangle

abbrev pub clock : HlcGenerator
clock = record { last = early }
