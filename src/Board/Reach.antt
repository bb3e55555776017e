-- ===== src/Board/Reach.antt =====
-- The boards that a host can reach: crates/kboard-ffi/src/board.rs.
use k_board.Common.{
  ℕ, suc, ◌+◌, ◌≤◌, false, List, [], ◌∷◌, length, ◌≡◌, ◌≢◌, refl, ap, sym, subst, ◌∙◌, arith,
  Bool-cases, inl, inr,
}
use k_board.Common.Order.{bytes_ord, equals, equals_self, same_of_equals}
use k_board.Document.Merge.{join-IsWellFormed, merge_within, merge_across}
use k_board.Clock.{ActorId, HlcGenerator}
use k_board.Common.Text.{Str}
use k_board.Element.{ElementId}
use k_board.Board.Command.{Command}
use k_board.Board.Exec.Cases.{exec_cases}
use k_board.Board.Exec.{Assigned, create, revise, erase, erase_all, exec}
use k_board.Document
use k_board.Document.{Document, ScopeId, Merged, ok, err, MergeError}
use k_board.Document.Invariant.{IsWellFormed, new-IsWellFormed}
use k_board.Op.{StampedOp}
use k_board.Op.Replay.{replay-IsWellFormed, replay-scope}
use k_board.Board.{
  Board, Change, Reversal, open_board, mint_id, record_ops, record_change, undo, redo, merge_ops,
  merge_document, take_pending, bounded, without_oldest, max_history, replay_change, stamp_all,
  undo_from, redo_from, merged_into, observe_highest,
}

unequal : (a b : ScopeId) → equals a b ≡ false → a ≢ b
unequal a b h e = cc (h, equals_self b, ap (λ x. equals x b) e)

-- One operation on a board.
pub data Step : Board → Board → Type 0 where
  executed : (b : Board) (command : Command) (now : ℕ) → Step b (exec b command now).0
  undid : (b : Board) (now : ℕ) → Step b (undo b now).0
  redid : (b : Board) (now : ℕ) → Step b (redo b now).0
  took_ops : (b : Board) (ops : List StampedOp) → Step b (merge_ops b ops).0
  took_document : (b : Board) (d : Document) → IsWellFormed d → Step b (merge_document b d).0
  sent : (b : Board) → Step b (take_pending b).0

pub data Reachable (scope : ScopeId) (actor : ActorId) : Board → Type 0 where
  opened : Reachable scope actor (open_board scope actor)
  stepped : (b c : Board) → Reachable scope actor b → Step b c → Reachable scope actor c

-- The document is well-formed and of the board's scope, and what may be undone and redone is within
-- the bound.
pub record IsSound (scope : ScopeId) (b : Board) : Type 0 where
  pub formed : IsWellFormed b.document
  pub scoped : b.document.scope ≡ scope
  pub short : length b.undone + length b.redone ≤ max_history

length-without_oldest :
    (c : Change) (cs : List Change) → length (without_oldest (c ∷ cs)) ≡ length cs
length-without_oldest c [] = refl
length-without_oldest c (d ∷ cs) = ap suc (length-without_oldest d cs)

length-bounded :
    (c : Change) (cs : List Change)
    → length cs ≤ max_history
    → length (bounded (c ∷ cs)) ≤ max_history
length-bounded c cs h = ground (arith, length-without_oldest c cs)

module _ (scope : ScopeId) where
  record-IsSound :
      (b : Board) (ops : List StampedOp)
      → IsSound scope b
      → IsWellFormed (record_ops b ops).document × ((record_ops b ops).document.scope ≡ scope)
  unfolding record_ops
  record-IsSound b ops s =
      (replay-IsWellFormed b.document ops s.formed, replay-scope b.document ops ∙ s.scoped)

  change-IsSound :
      (b : Board) (ops : List StampedOp) (change : Change)
      → IsSound scope b
      → IsSound scope (record_change b ops change)
  unfolding record_change
  change-IsSound b ops change s =
      let d = record-IsSound b ops s in
      record {
        formed = d.0;
        scoped = d.1;
        short = let n = length-bounded change b.undone (omega (arith, s.short)) in omega (arith, n);
      }

  -- The board after its ids and its clock have moved on.
  moved_on :
      (b : Board) (clock : HlcGenerator) (next : ℕ)
      → IsSound scope b
      → IsSound scope (record b { clock = clock; next_local = next })
  moved_on b clock next s = record { formed = s.formed; scoped = s.scoped; short = s.short }

  create-IsSound :
      (b : Board) (assigned : Str → Assigned) (now : ℕ)
      → IsSound scope b
      → IsSound scope (create b assigned now).0
  unfolding create mint_id
  create-IsSound b assigned now s = change-IsSound _ _ _ (moved_on b _ _ s)

  revise-IsSound :
      (b : Board) (id : Str) (element : ElementId) (props : Assigned) (now : ℕ)
      → IsSound scope b
      → IsSound scope (revise b id element props now).0
  unfolding revise
  revise-IsSound b id element props now s = change-IsSound _ _ _ (moved_on b _ b.next_local s)

  erase-IsSound :
      (b : Board) (id : Str) (element : ElementId) (now : ℕ)
      → IsSound scope b
      → IsSound scope (erase b id element now).0
  unfolding erase
  erase-IsSound b id element now s = change-IsSound _ _ _ (moved_on b _ b.next_local s)

  erase_all-IsSound : (b : Board) (now : ℕ) → IsSound scope b → IsSound scope (erase_all b now).0
  unfolding erase_all
  erase_all-IsSound b now s = change-IsSound _ _ _ (moved_on b _ b.next_local s)

  exec-IsSound :
      (b : Board) (command : Command) (now : ℕ)
      → IsSound scope b
      → IsSound scope (exec b command now).0
  exec-IsSound b command now s =
      exec_cases b now (λ ran. IsSound scope ran.0) (λ e. s)
        (λ assigned short. create-IsSound b assigned now s)
        (λ id element props short. revise-IsSound b id element props now s)
        (λ id element. erase-IsSound b id element now s) (erase_all-IsSound b now s) command

  replay_change-IsSound :
      (b : Board) (rs : List Reversal) (now : ℕ)
      → IsSound scope b
      → IsWellFormed (replay_change b rs now).document
        × ((replay_change b rs now).document.scope ≡ scope)
  unfolding replay_change
  replay_change-IsSound b rs now s =
      record-IsSound (record b { clock = (stamp_all b.clock rs now).0 })
        (stamp_all b.clock rs now).1
        (record { formed = s.formed; scoped = s.scoped; short = s.short })

  undo_from-IsSound :
      (b : Board) (now : ℕ) (changes : List Change)
      → changes ≡ b.undone
      → IsSound scope b
      → IsSound scope (undo_from b now changes).0
  undo_from-IsSound b now [] e s = s
  undo_from-IsSound b now (change ∷ rest) e s =
      let d = replay_change-IsSound b change.backward now s in
      record { formed = d.0; scoped = d.1; short = omega (arith, s.short, ap length e) }

  redo_from-IsSound :
      (b : Board) (now : ℕ) (changes : List Change)
      → changes ≡ b.redone
      → IsSound scope b
      → IsSound scope (redo_from b now changes).0
  redo_from-IsSound b now [] e s = s
  redo_from-IsSound b now (change ∷ rest) e s =
      let d = replay_change-IsSound b change.forward now s in
      record { formed = d.0; scoped = d.1; short = omega (arith, s.short, ap length e) }

  merge_ops-IsSound :
      (b : Board) (ops : List StampedOp) → IsSound scope b → IsSound scope (merge_ops b ops).0
  unfolding merge_ops
  merge_ops-IsSound b ops s = record {
    formed = replay-IsWellFormed b.document ops s.formed;
    scoped = replay-scope b.document ops ∙ s.scoped;
    short = s.short;
  }

  -- What a board is after a merge, whether it is refused or not.
  merged_into-IsSound :
      (b : Board) (d : Document)
      → IsWellFormed d
      → IsSound scope b
      → IsSound scope (merged_into b (Document.merge b.document d)).0
  merged_into-IsSound b d w s = elim (Bool-cases (equals b.document.scope d.scope)) [
    | inl same ↦
        subst (λ m. IsSound scope (merged_into b m).0)
          (sym (merge_within b.document d (same_of_equals b.document.scope d.scope same)))
          (record {
            formed = join-IsWellFormed b.document d s.formed w;
            scoped = s.scoped;
            short = s.short;
          })
    | inr apart ↦
        subst (λ m. IsSound scope (merged_into b m).0)
          (sym (merge_across b.document d (unequal b.document.scope d.scope apart))) s
  ]

  merge_document-IsSound :
      (b : Board) (d : Document)
      → IsWellFormed d
      → IsSound scope b
      → IsSound scope (merge_document b d).0
  unfolding merge_document
  merge_document-IsSound b d w s =
      merged_into-IsSound (record b { clock = observe_highest b.clock (Document.max_stamp d) }) d w
        (record { formed = s.formed; scoped = s.scoped; short = s.short })

  Step-IsSound : (b c : Board) → Step b c → IsSound scope b → IsSound scope c
  unfolding take_pending undo redo
  Step-IsSound b _ (Step.executed _ command now) s = exec-IsSound b command now s
  Step-IsSound b _ (Step.undid _ now) s = undo_from-IsSound b now b.undone refl s
  Step-IsSound b _ (Step.redid _ now) s = redo_from-IsSound b now b.redone refl s
  Step-IsSound b _ (Step.took_ops _ ops) s = merge_ops-IsSound b ops s
  Step-IsSound b _ (Step.took_document _ d w) s = merge_document-IsSound b d w s
  Step-IsSound b _ (Step.sent _) s = record {
    formed = s.formed;
    scoped = s.scoped;
    short = s.short;
  }

open_board-IsSound : (scope : ScopeId) (actor : ActorId) → IsSound scope (open_board scope actor)
unfolding open_board Document.new
open_board-IsSound scope actor = record {
  formed = new-IsWellFormed scope;
  scoped = refl;
  short = omega arith;
}

-- Every board that is reached from an opened one, by any commands, undoing, redoing and merging
-- of operations and of well-formed documents, has a well-formed document of the scope it was opened
-- with, and no more than 200 changes to undo and redo together.
pub Reachable-IsSound :
    (scope : ScopeId) (actor : ActorId) (b : Board) → Reachable scope actor b → IsSound scope b
Reachable-IsSound scope actor _ Reachable.opened = open_board-IsSound scope actor
Reachable-IsSound scope actor _ (Reachable.stepped b c r step) =
    Step-IsSound scope b c step (Reachable-IsSound scope actor b r)
