-- ===== src/Board.antt =====
-- The board of a host, with its history: crates/kboard-ffi/src/board.rs. A `Vec` that is only pushed
-- to and popped from is a list with its last item first.
pub mod Reach
pub mod Causality
pub mod Command
pub mod Scene
pub mod Exec
pub mod Replay
use k_board.Common.{
  ℕ, ◌+◌, ◌*◌, ◌%◌, ◌^◌, Bool, true, false, not, List, [], ◌∷◌, ◌++◌, Option, none, some, map,
  length, ltb, if◌then◌else◌,
}
use k_board.Common.Float.{F64}
use k_board.Clock
use k_board.Clock.{ActorId, Hlc, HlcGenerator, tick, observe, actor_of}
use k_board.Prop.Key.{PropKey}
use k_board.Prop.Value.{PropValue}
use k_board.Element
use k_board.Element.{Element, ElementId, max_of}
use k_board.Document
use k_board.Document.{Document, ScopeId, Merged, ok, err, z_index_for_top}
use k_board.Frac.{Outcome}
use k_board.Op
use k_board.Op.{Op, StampedOp, apply_all}

-- 20.0 and 1.0.
abbrev pub default_font_size : F64
default_font_size = 4626322717216342016

abbrev pub default_opacity : F64
default_opacity = 4607182418800017408

unfoldable pub read_default : PropKey → Option PropValue
read_default PropKey.angle = some (PropValue.num 0)
read_default PropKey.font_size = some (PropValue.num default_font_size)
read_default PropKey.opacity = some (PropValue.num default_opacity)
read_default _ = none

pub data Reversal : Type 0 where
  set : ElementId → PropKey → PropValue → Reversal
  delete : ElementId → Reversal

pub record Change : Type 0 where
  pub backward : List Reversal
  pub forward : List Reversal

abbrev pub max_history : ℕ
max_history = 200

pub record Board : Type 0 where
  pub document : Document
  pub clock : HlcGenerator
  pub pending : List StampedOp
  pub next_local : ℕ
  pub undone : List Change
  pub redone : List Change

unfoldable pub open_board : ScopeId → ActorId → Board
open_board scope actor = record {
  document = Document.new scope;
  clock = Clock.new actor;
  pending = [];
  next_local = 0;
  undone = [];
  redone = [];
}

-- `(actor << 64) | next_local`, where the counter is a `u64`.
unfoldable pub mint_id : Board → Board × ElementId
mint_id b =
    let next : ℕ = (b.next_local + 1) % 2 ^ 64 in
    (record b { next_local = next }, actor_of b.clock * 2 ^ 64 + next)

-- `record`, which applies operations and keeps them for the peers.
unfoldable pub record_ops : Board → List StampedOp → Board
record_ops b ops = record b { document = (apply_all b.document ops).0; pending = b.pending ++ ops }

-- `remove(0)`, which drops the oldest change.
abbrev pub without_oldest : List Change → List Change
without_oldest [] = []
without_oldest (c ∷ []) = []
without_oldest (c ∷ d ∷ cs) = c ∷ without_oldest (d ∷ cs)

abbrev pub bounded : List Change → List Change
bounded cs = if ltb max_history (length cs) then without_oldest cs else cs

unfoldable pub record_change : Board → List StampedOp → Change → Board
record_change b ops change = record (record_ops b ops) {
  redone = [];
  undone = bounded (change ∷ b.undone);
}

-- The `filter_map` of `capture`.
unfoldable pub captured : Element → ElementId → List PropKey → List Reversal
captured current id [] = []
captured current id (key ∷ keys) =
    let rest = captured current id keys in
    elim (Element.get current key) [
      | some value ↦ Reversal.set id key value ∷ rest
      | none ↦ elim (read_default key) [
        | some value ↦ Reversal.set id key value ∷ rest
        | none ↦ rest
      ]
    ]

unfoldable pub capture : Board → ElementId → List PropKey → List Reversal
capture b id keys = elim (Document.get b.document id) [
  | none ↦ []
  | some current ↦ captured current id keys
]

abbrev pub op_of : Reversal → Op
op_of (Reversal.set id key value) = Op.set id key value
op_of (Reversal.delete id) = Op.delete id

-- `stamp`: the clock afterwards, and the operations.
unfoldable pub stamp_all : HlcGenerator → List Reversal → ℕ → HlcGenerator × List StampedOp
stamp_all clock [] now = (clock, [])
stamp_all clock (reversal ∷ reversals) now =
    let (clock', stamp) = tick clock now in
    let (clock'', ops) = stamp_all clock' reversals now in
    (clock'', record { stamp = stamp; op = op_of reversal } ∷ ops)

-- `stamp` and `record`, as `undo` and `redo` do them.
unfoldable pub replay_change : Board → List Reversal → ℕ → Board
replay_change b reversals now =
    let (clock, ops) = stamp_all b.clock reversals now in
    record_ops (record b { clock = clock }) ops

-- `undo` and `redo` on what is popped, which is the first of the list.
abbrev pub undo_from : Board → ℕ → List Change → Board × Bool
undo_from b now [] = (b, false)
undo_from b now (change ∷ rest) = (
  record (replay_change b change.backward now) { undone = rest; redone = change ∷ b.redone },
  true,
)

unfoldable pub undo : Board → ℕ → Board × Bool
undo b now = undo_from b now b.undone

abbrev pub redo_from : Board → ℕ → List Change → Board × Bool
redo_from b now [] = (b, false)
redo_from b now (change ∷ rest) = (
  record (replay_change b change.forward now) { undone = change ∷ b.undone; redone = rest },
  true,
)

unfoldable pub redo : Board → ℕ → Board × Bool
redo b now = redo_from b now b.redone

-- The clock after the highest of some stamps is observed, if there is one.
unfoldable pub observe_highest : HlcGenerator → Option Hlc → HlcGenerator
observe_highest clock none = clock
observe_highest clock (some highest) = (observe clock highest highest.wall).0

unfoldable pub merge_ops : Board → List StampedOp → Board × ℕ
merge_ops b ops =
    let (document, changed) = apply_all b.document ops in
    (
      record b {
        document = document;
        clock = observe_highest b.clock (max_of (map (λ stamped. stamped.stamp) ops));
      },
      changed,
    )

-- `merge_document`: the board afterwards, and the error of the merge or whether it changed.
abbrev pub merged_into : Board → Merged (Document × Bool) → Board × Merged Bool
merged_into b (ok (document, changed)) = (record b { document = document }, ok changed)
merged_into b (err e) = (b, err e)

unfoldable pub merge_document : Board → Document → Board × Merged Bool
merge_document b incoming =
    let clock = observe_highest b.clock (Document.max_stamp incoming) in
    merged_into (record b { clock = clock }) (Document.merge b.document incoming)

unfoldable pub take_pending : Board → Board × List StampedOp
take_pending b = (record b { pending = [] }, b.pending)

unfoldable pub top_z : Board → Outcome
top_z b = z_index_for_top b.document

-- `creation` and `mutation`.
unfoldable pub writes : ElementId → List (PropKey × PropValue) → List Reversal
writes id [] = []
writes id ((key, value) ∷ props) = Reversal.set id key value ∷ writes id props

unfoldable pub creation : ElementId → List (PropKey × PropValue) → Change
creation id props = record {
  backward = Reversal.delete id ∷ [];
  forward = writes id props ++ Reversal.set id PropKey.deleted (PropValue.bool false) ∷ [];
}

unfoldable pub mutation : ElementId → List Reversal → List (PropKey × PropValue) → Change
mutation id backward props = record { backward = backward; forward = writes id props }
