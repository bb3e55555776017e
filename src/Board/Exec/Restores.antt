-- ===== src/Board/Exec/Restores.antt =====
-- Undo puts back what a command changed: crates/kboard-ffi/src/board.rs, `exec` and `undo`.
use k_board.Common.{
  ℕ, ◌+◌, ◌*◌, ◌≤◌, true, false, List, [], ◌∷◌, Option, none, some, map, any, length, ◌≡◌, ap,
  subst, ◌∙◌, arith, Bool-cases, Option-cases, inl, inr,
}
use k_board.Common.Order.{equals, nat_ord, same_of_equals}
use k_board.Common.Map
use k_board.Common.Text.{Str}
use k_board.Clock.{u32_max}
use k_board.Prop.Key.{PropKey}
use k_board.Prop.Key.Order.{key_ord}
use k_board.Prop.Value.{PropValue, is_valid}
use k_board.Element
use k_board.Element.{Element, ElementId}
use k_board.Document
use k_board.Document.{Document, live, z_index_for_top}
use k_board.Document.Invariant.{held, held_or_new}
use k_board.Op
use k_board.Op.{StampedOp}
use k_board.Board.{
  Board, Change, Reversal, stamp_all, writes, captured, capture, undo, mint_id, creation, mutation,
}
use k_board.Board.Replay.{reading, IsBehind, last_set}
use k_board.Board.Command.{Command, ok}
use k_board.Board.Exec.{Assigned, Ran, create, revise, erase, erase_all, exec, key_text}
use k_board.Board.Exec.Cases.{exec_cases, most_props}
use k_board.Board.Exec.Behind.{IsAhead, ticks}
use k_board.Board.Exec.Undo.{
  upsert-stamp_all, delete_each-stamp_all, element-delete_each, undo-record_change,
  last_set-writes_apart, captured_restores, captured_keeps, captured_apart, length-captured,
  length-writes, length-map, deletes_read, restores_read,
}

pub capture-captured :
    (b : Board) (id : ElementId) (keys : List PropKey) (e : Element)
    → held b.document id ≡ some e
    → capture b id keys ≡ captured e id keys
unfolding capture Document.get
capture-captured b id keys e h = rw (h, capture)

pub capture_missing :
    (b : Board) (id : ElementId) (keys : List PropKey)
    → held b.document id ≡ none
    → capture b id keys ≡ []
unfolding capture Document.get
capture_missing b id keys h = rw (h, capture)

pub length-capture :
    (b : Board) (id : ElementId) (keys : List PropKey) → length (capture b id keys) ≤ length keys
length-capture b id keys = elim (Option-cases (held b.document id)) [
  | inl absent ↦ rw (capture_missing b id keys absent) (omega arith)
  | inr (e, present) ↦ rw (capture-captured b id keys e present) (length-captured e id keys)
]

missing_reads :
    (d : Document) (j : ElementId) (k : PropKey) → held d j ≡ none → reading d j k ≡ none
unfolding Element.get Element.new Map.lookup
missing_reads d j k h = ground (arith, h)

pub held_of_reading :
    (d : Document) (j : ElementId) (k : PropKey) (v : PropValue)
    → reading d j k ≡ some v
    → (e : Element) × (held d j ≡ some e) × (Element.get e k ≡ some v)
held_of_reading d j k v h = elim (Option-cases (held d j)) [
  | inl absent ↦ absurd (cc (missing_reads d j k absent, h))
  | inr (e, present) ↦ (e, present, rw (present, held_or_new) at h)
]

-- One property that held a valid value when the command was run.
module _ (b : Board) (now later : ℕ) (j : ElementId) (k : PropKey) (v : PropValue)
    (behind : IsBehind b.document b.clock.last)
    (room : b.clock.last.counter + 2 * (most_props + length (live b.document)) ≤ u32_max)
    (fresh : held b.document (mint_id b).1 ≡ none) (reads : reading b.document j k ≡ some v)
    (valid : is_valid v ≡ true) (stands : k ≡ PropKey.deleted → v ≡ PropValue.bool false) where
  abbrev Restores : Ran → Type 0
  Restores ran =
      (r : Option Str) → ran.1 ≡ ok r → reading (undo ran.0 later).0.document j k ≡ some v

  apart_of_fresh : equals j (mint_id b).1 ≡ false
  apart_of_fresh =
      let (e, present, _) = held_of_reading b.document j k v reads in
      elim (Bool-cases (equals j (mint_id b).1)) [
        | inl here ↦ cc (present, fresh, ap (held b.document) (same_of_equals j (mint_id b).1 here))
        | inr there ↦ there
      ]

  create-Restores :
      (assigned : Str → Assigned)
      → ((z : Str) → length (assigned z) ≤ most_props)
      → Restores (create b assigned now)
  unfolding create creation mint_id
  create-Restores assigned short r accepted =
      let (minted, id) = mint_id b in
      let props = assigned (key_text (z_index_for_top b.document)) in
      let short' = short (key_text (z_index_for_top b.document)) in
      let room' : b.clock.last.counter + (length (writes id props) + 1) ≤ u32_max =
        omega (arith, room, length-writes id props, short') in
      rw (upsert-stamp_all id props b.clock now) (
        undo-record_change minted (writes id props) (creation id props) now later behind room' j k
        ∙ ground (
          arith,
          reads,
          apart_of_fresh,
          last_set-writes_apart id props j k (reading b.document j k),
        ))

  -- What is written to another element does not matter, and neither does what is written back.
  written_apart :
      (element : ElementId) (props : Assigned)
      → equals j element ≡ false
      → last_set
          (capture b element (map (λ p. p.0) props))
          j
          k
          (last_set (writes element props) j k (some v))
        ≡ some v
  written_apart element props there =
      let keys = map (λ p. p.0) props in
      let same = last_set-writes_apart element props j k (some v) (ground (arith, there)) in
      ap (last_set (capture b element keys) j k) same
      ∙ elim (Option-cases (held b.document element)) [
        | inl absent ↦ ap (λ rs. last_set rs j k (some v)) (capture_missing b element keys absent)
        | inr (e, present) ↦
            ap (λ rs. last_set rs j k (some v)) (capture-captured b element keys e present)
            ∙ captured_apart e element j k keys (some v) there
      ]

  written_here :
      (props : Assigned)
      → last_set (capture b j (map (λ p. p.0) props)) j k (last_set (writes j props) j k (some v))
        ≡ some v
  written_here props =
      let keys = map (λ p. p.0) props in
      let (e, present, own) = held_of_reading b.document j k v reads in
      ap (λ rs. last_set rs j k (last_set (writes j props) j k (some v)))
        (capture-captured b j keys e present)
      ∙ elim (Bool-cases (any (equals k) keys)) [
        | inl among ↦ captured_restores e j k v own valid keys _ among
        | inr apart ↦
            ap (last_set (captured e j keys) j k)
              (last_set-writes_apart j props j k (some v) (ground (arith, apart)))
            ∙ captured_keeps e j k v own valid keys
      ]

  written_back :
      (element : ElementId) (props : Assigned)
      → last_set
          (capture b element (map (λ p. p.0) props))
          j
          k
          (last_set (writes element props) j k (some v))
        ≡ some v
  written_back element props = elim (Bool-cases (equals j element)) [
    | inl here ↦
        subst
          (λ i.
            last_set (capture b i (map (λ p. p.0) props)) j k
              (last_set (writes i props) j k (some v))
            ≡ some v)
          (same_of_equals j element here) (written_here props)
    | inr there ↦ written_apart element props there
  ]

  revise-Restores :
      (id : Str) (element : ElementId) (props : Assigned)
      → length props ≤ most_props
      → Restores (revise b id element props now)
  unfolding revise mutation
  revise-Restores id element props short r accepted =
      let keys = map (λ p. p.0) props in
      let change = mutation element (capture b element keys) props in
      let room' : b.clock.last.counter + (length (writes element props) + length change.backward)
          ≤ u32_max =
        omega (
          arith,
          room,
          length-writes element props,
          length-capture b element keys,
          length-map (λ p. p.0) props,
        ) in
      rw (upsert-stamp_all element props b.clock now) (
        undo-record_change b (writes element props) change now later behind room' j k
        ∙ ap (λ a. last_set change.backward j k (last_set (writes element props) j k a)) reads
        ∙ written_back element props)

  -- A tombstone that is written and taken back.
  tombstone_lifted :
      (ids : List ElementId)
      → last_set
          (map (λ e. Reversal.set e PropKey.deleted (PropValue.bool false)) ids)
          j
          k
          (last_set (map Reversal.delete ids) j k (reading b.document j k))
        ≡ some v
  tombstone_lifted ids = ground (
    arith,
    restores_read ids j k (last_set (map Reversal.delete ids) j k (reading b.document j k)),
    deletes_read ids j k (reading b.document j k),
    same_of_equals k PropKey.deleted,
    reads,
    stands,
  )

  erase-Restores : (id : Str) (element : ElementId) → Restores (erase b id element now)
  unfolding erase stamp_all
  erase-Restores id element r accepted =
      undo-record_change b (map Reversal.delete (element ∷ []))
        (record {
          backward = Reversal.set element PropKey.deleted (PropValue.bool false) ∷ [];
          forward = Reversal.delete element ∷ [];
        })
        now later behind (omega (arith, room)) j k
      ∙ tombstone_lifted (element ∷ [])

  erase_all-Restores : Restores (erase_all b now)
  unfolding erase_all Op.clear
  erase_all-Restores r accepted =
      let es = live b.document in
      let ids = map (λ e. e.id) es in
      let cleared : Change = record {
        backward = map (λ e. Reversal.set e PropKey.deleted (PropValue.bool false)) ids;
        forward = map Reversal.delete ids;
      } in
      let room' : b.clock.last.counter
            + (length (map Reversal.delete ids) + length cleared.backward)
          ≤ u32_max =
        omega (
          arith,
          room,
          length-map Reversal.delete ids,
          length-map (λ e. e.id) es,
          length-map (λ e. Reversal.set e PropKey.deleted (PropValue.bool false)) ids,
        ) in
      rw (element-delete_each es b.clock now, delete_each-stamp_all es b.clock now)
        (undo-record_change b (map Reversal.delete ids) cleared now later behind room' j k
          ∙ tombstone_lifted ids)

-- Undoing an accepted command gives back every property that had a valid value before it, on every
-- element: the next id is one that the document does not hold, no register is ahead of the clock, and
-- the counter has room for twice the ticks of a command. Of the tombstone that is shown where it did not stand.
pub exec-undo :
    (b : Board) (command : Command) (now later : ℕ) (r : Option Str)
    → IsAhead b (2 * ticks b)
    → held b.document (mint_id b).1 ≡ none
    → (exec b command now).1 ≡ ok r
    → (j : ElementId) (k : PropKey) (v : PropValue) → reading b.document j k ≡ some v
    → is_valid v ≡ true
    → (k ≡ PropKey.deleted → v ≡ PropValue.bool false)
    → reading (undo (exec b command now).0 later).0.document j k ≡ some v
exec-undo b command now later r ahead fresh accepted j k v reads valid stands =
    let behind = ahead.behind in
    let room = ahead.room in
    exec_cases b now (Restores b now later j k v behind room fresh reads valid stands)
      (λ e s refused. cc refused)
      (create-Restores b now later j k v behind room fresh reads valid stands)
      (revise-Restores b now later j k v behind room fresh reads valid stands)
      (erase-Restores b now later j k v behind room fresh reads valid stands)
      (erase_all-Restores b now later j k v behind room fresh reads valid stands) command r accepted
