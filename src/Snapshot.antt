-- ===== src/Snapshot.antt =====
-- Snapshots: crates/kboard-core/src/snapshot.rs.
pub mod Laws
use k_board.Common.{
  ℕ, ◌+◌, ◌%◌, ◌^◌, Bool, true, false, List, map, Option, none, some, length, map_or,
}
use k_board.Common.Order.{at_most, greater}
use k_board.Clock.{Hlc}
use k_board.Clock.Order.{hlc_ord}
use k_board.Element.{max_of}
use k_board.Document
use k_board.Document.{Document, ScopeId, Merged, ok, err}
use k_board.Op.{StampedOp, apply_all}

-- `absorbed` is a `u64`.
pub record Snapshot : Type 0 where
  pub document : Document
  pub through : Option Hlc
  pub absorbed : ℕ

unfoldable pub empty : ScopeId → Snapshot
empty scope = record { document = Document.new scope; through = none; absorbed = 0 }

-- `Some(through.map_or(other, |current| current.max(other)))`, where there is another stamp.
unfoldable pub advance : Option Hlc → Option Hlc → Option Hlc
advance through none = through
advance through (some highest) = some (map_or highest (λ current. greater current highest) through)

-- `absorb`: the snapshot, and how many operations changed the document.
unfoldable pub absorb : Snapshot → List StampedOp → Snapshot × ℕ
absorb s ops =
    let (document, changed) = apply_all s.document ops in
    let through = advance s.through (max_of (map (λ stamped. stamped.stamp) ops)) in
    let absorbed : ℕ = (s.absorbed + length ops) % 2 ^ 64 in
    (record { document = document; through = through; absorbed = absorbed }, changed)

unfoldable pub materialize : ScopeId → List StampedOp → Snapshot
materialize scope ops = (absorb (empty scope) ops).0

unfoldable pub covers : Snapshot → StampedOp → Bool
covers s stamped = map_or false (λ through. at_most stamped.stamp through) s.through

-- `merge`: the error of the documents' merge, or the snapshot and whether its document changed.
unfoldable pub merge : Snapshot → Snapshot → Merged (Snapshot × Bool)
merge s other = elim (Document.merge s.document other.document) [
  | err e ↦ err e
  | ok (document, changed) ↦
      ok (record s { document = document; through = advance s.through other.through }, changed)
]
