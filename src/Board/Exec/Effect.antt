-- ===== src/Board/Exec/Effect.antt =====
-- What a command does to a board, refused or accepted: crates/kboard-ffi/src/board.rs, `exec` and
-- `record_change`.
use k_board.Board.Exec.Asked.{written}
use k_board.Common.{false, List, [], ◌∷◌, ◌++◌, Option, map, take, ◌≡◌, ◌⊎◌}
use k_board.Prop.Key.{PropKey}
use k_board.Prop.Value.{PropValue}
use k_board.Element.{ElementId}
use k_board.Op
use k_board.Op.{Op, StampedOp}
use k_board.Op.Replay.{replay}
use k_board.Board.{Board, Change, op_of}
use k_board.Board.Command.{Command, ok, err}
use k_board.Board.Exec.{Ran}

-- What the redoing of a change does besides the operations: it lifts the tombstone of an element that
-- was created.
abbrev pub IsLift : List Op → Type 0
IsLift ops =
    (ops ≡ []) ⊎ ((id : ElementId) × (ops ≡ Op.set id PropKey.deleted (PropValue.bool false) ∷ []))

-- A board whose document has taken in operations that write just these properties and that it queues,
-- with a change more to undo, which is redone by the same operations.
pub record IsEdited (keys : List (Option PropKey)) (b c : Board) : Type 0 where
  pub ops : List StampedOp
  pub change : Change
  pub lift : List Op
  pub named : map written ops ≡ keys
  pub applied : c.document ≡ replay b.document ops
  pub queued : c.pending ≡ b.pending ++ ops
  pub redoable : map op_of change.forward ≡ map (λ o. o.op) ops ++ lift
  pub lifts : IsLift lift
  pub undoable : c.undone ≡ take 200 (change ∷ b.undone)
  pub final : c.redone ≡ []

abbrev pub Outcome : List (Option PropKey) → Board → Ran → Type 0
Outcome keys b (c, err e) = c ≡ b
Outcome keys b (c, ok r) = IsEdited keys b c
