-- ===== src/Board/Exec/Clear.antt =====
-- Clearing a board: crates/kboard-ffi/src/board.rs, `exec`.
use k_board.Common.{
  ℕ, ◌+◌, ◌≤◌, true, false, not, List, [], ◌∷◌, some, map, any, filter, length, ◌≡◌, refl, ap, sym,
  ◌∙◌, arith, Bool-cases, inl, inr,
}
use k_board.Common.Order.{equals, nat_ord, equals_self}
use k_board.Common.Map
use k_board.Common.Map.{Map, IsSorted}
use k_board.Common.Map.Laws.{lookup_head, lookup_of_tail}
use k_board.Clock.{HlcGenerator, tick, u32_max}
use k_board.Prop.Key.{PropKey}
use k_board.Prop.Key.Order.{key_ord}
use k_board.Prop.Value.{PropValue, as_bool}
use k_board.Element.{Element, ElementId, is_deleted}
use k_board.Document
use k_board.Document.{Document, Elements, live}
use k_board.Document.Invariant.{held, IsWellFormed, held-entry_set}
use k_board.Document.Tombstones.{any-picked, IsFiled-of}
use k_board.Op
use k_board.Op.{StampedOp}
use k_board.Op.Replay.{replay, replay-cons, replay-nil, after-written, replay-IsWellFormed}
use k_board.Board.{Board, Reversal, stamp_all, record_change, record_ops}
use k_board.Board.Replay.{reading, stamp_all_lem}
use k_board.Board.Command.{Command}
use k_board.Board.Exec.{erase_all, exec}
use k_board.Board.Exec.Undo.{delete_each-stamp_all, length-map, deletes_read}
use k_board.Board.Exec.Behind.{IsAhead}

-- Elements that no deletion is of are held as before.
held_untouched :
    (ids : List ElementId) (d : Document) (clock : HlcGenerator) (now : ℕ) (j : ElementId)
    → any (equals j) ids ≡ false
    → held (replay d (stamp_all clock (map Reversal.delete ids) now).1) j ≡ held d j
unfolding stamp_all
held_untouched [] d clock now j h = ap (λ x. held x j) (replay-nil d)
held_untouched (id ∷ ids) d clock now j h =
    let (next, t) = tick clock now in
    let a : StampedOp = record { stamp = t; op = Op.delete id } in
    let d' = (Document.entry_set d id PropKey.deleted (PropValue.bool true) t).0 in
    rw (replay-cons, after-written)
      (held_untouched ids d' next now j (ground (arith, h))
        ∙ ground (arith, h, held-entry_set d id PropKey.deleted (PropValue.bool true) t j))

-- Where all elements that are held are deleted, none is live.
none_live :
    (m : Elements)
    → IsSorted m
    → ((id : ElementId) (e : Element) → Map.lookup id m ≡ some e → is_deleted e ≡ true)
    → filter (λ e. not (is_deleted e)) (Map.values m) ≡ []
unfolding Map.values
none_live [] s h = refl
none_live ((id, e) ∷ m) s h = ground (
  arith,
  h id e (lookup_head id e m),
  none_live m s.1 (λ i f q. h i f (lookup_of_tail i id e f m s.0 q)),
)

deleted_of_reading :
    (d : Document) (j : ElementId) (e : Element)
    → held d j ≡ some e
    → reading d j PropKey.deleted ≡ some (PropValue.bool true)
    → is_deleted e ≡ true
unfolding is_deleted as_bool
deleted_of_reading d j e h r = ground (arith, h, r)

module _ (b : Board) (now : ℕ) (formed : IsWellFormed b.document)
    (ahead : IsAhead b (length (live b.document))) where
  abbrev ids : List ElementId
  ids = map (λ e. e.id) (live b.document)

  abbrev cleared : Document
  cleared = replay b.document (stamp_all b.clock (map Reversal.delete ids) now).1

  kept_deleted :
      (j : ElementId) (e : Element)
      → any (equals j) ids ≡ false
      → held b.document j ≡ some e
      → is_deleted e ≡ true
  unfolding live
  kept_deleted j e apart h =
      let m = b.document.elements in
      let filed = IsFiled-of m formed.sorted formed.filed in
      let among = any-picked (λ x. not (is_deleted x)) j m formed.sorted filed in
      ground (arith, apart, h, among)

  cleared_deleted : (j : ElementId) (e : Element) → held cleared j ≡ some e → is_deleted e ≡ true
  cleared_deleted j e h =
      let room : b.clock.last.counter + length (map Reversal.delete ids) ≤ u32_max = omega (
        arith,
        ahead.room,
        length-map Reversal.delete ids,
        length-map (λ x. x.id) (live b.document),
      ) in
      let (_, _, reads) =
        stamp_all_lem b.document b.clock (map Reversal.delete ids) now ahead.behind room in
      let read =
        reads j PropKey.deleted
        ∙ deletes_read ids j PropKey.deleted (reading b.document j PropKey.deleted) in
      elim (Bool-cases (any (equals j) ids)) [
        | inl among ↦
            deleted_of_reading cleared j e h
              (ground (arith, read, among, equals_self PropKey.deleted))
        | inr apart ↦
            kept_deleted j e apart (sym (held_untouched ids b.document b.clock now j apart) ∙ h)
      ]

-- Where the document is well-formed and the clock is not behind it, with room for a tick for each live
-- element, no element is live after the board is cleared.
pub exec-clear :
    (b : Board) (now : ℕ)
    → IsWellFormed b.document
    → IsAhead b (length (live b.document))
    → live (exec b Command.clear now).0.document ≡ []
unfolding exec erase_all Op.clear record_change record_ops live
exec-clear b now formed ahead =
    let d = cleared b now formed ahead in
    rw (delete_each-stamp_all (live b.document) b.clock now) (
      none_live d.elements
        (replay-IsWellFormed b.document
          (stamp_all b.clock (map Reversal.delete (ids b now formed ahead)) now).1 formed).sorted
        (cleared_deleted b now formed ahead))
