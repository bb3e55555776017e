-- ===== src/Op.antt =====
-- Operations: crates/kboard-core/src/op.rs.
pub mod Replay
pub mod Convergence
pub mod Build
use k_board.Common.{ℕ, ◌+◌, Bool, true, false, List, [], ◌∷◌, if◌then◌else◌}
use k_board.Clock.{Hlc, HlcGenerator, tick}
use k_board.Prop.Key.{PropKey}
use k_board.Prop.Value.{PropValue}
use k_board.Element.{Element, ElementId}
use k_board.Document
use k_board.Document.{Document}

pub data Op : Type 0 where
  set : ElementId → PropKey → PropValue → Op
  delete : ElementId → Op

unfoldable pub element : Op → ElementId
element (set e key value) = e
element (delete e) = e

pub record StampedOp : Type 0 where
  pub stamp : Hlc
  pub op : Op

-- `apply` at each operation; the stamp is that of the stamped one.
unfoldable pub apply_op : Document → Op → Hlc → Document × Bool
apply_op d (set e key value) stamp = Document.entry_set d e key value stamp
apply_op d (delete e) stamp = Document.delete d e stamp

unfoldable pub apply : Document → StampedOp → Document × Bool
apply d stamped = apply_op d stamped.op stamped.stamp

-- `apply_all`: the document, and how many operations reported a change.
unfoldable pub apply_all : Document → List StampedOp → Document × ℕ
apply_all d [] = (d, 0)
apply_all d (stamped ∷ ops) =
    let (d', changed) = apply d stamped in
    let (d'', count) = apply_all d' ops in (d'', (if changed then 1 else 0) + count)

-- The loop of `clear` over the live elements; each ticks the clock.
unfoldable pub delete_each : List Element → HlcGenerator → ℕ → HlcGenerator × List StampedOp
delete_each [] clock now = (clock, [])
delete_each (e ∷ es) clock now =
    let (clock', stamp) = tick clock now in
    let (clock'', ops) = delete_each es clock' now in
    (clock'', record { stamp = stamp; op = delete e.id } ∷ ops)

unfoldable pub clear : Document → HlcGenerator → ℕ → HlcGenerator × List StampedOp
clear d clock now = delete_each (Document.live d) clock now

unfoldable pub upsert :
    ElementId → List (PropKey × PropValue) → HlcGenerator → ℕ → HlcGenerator × List StampedOp
upsert e [] clock now = (clock, [])
upsert e ((key, value) ∷ props) clock now =
    let (clock', stamp) = tick clock now in
    let (clock'', ops) = upsert e props clock' now in
    (clock'', record { stamp = stamp; op = set e key value } ∷ ops)
