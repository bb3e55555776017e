-- ===== src/Board/Exec/Reapplies.antt =====
-- Redo brings back what a command did: crates/kboard-ffi/src/board.rs, `exec`, `undo` and `redo`.
use k_board.Common.{
  ℕ, ◌+◌, ◌*◌, ◌≤◌, true, false, List, [], ◌∷◌, Option, some, map, length, ◌≡◌, ◌≢◌, ap, sym, subst,
  ◌∙◌, arith, Bool-cases, Option-cases, inl, inr,
}
use k_board.Common.Order.{equals, nat_ord, same_of_equals}
use k_board.Common.Text.{Str}
use k_board.Clock.{u32_max}
use k_board.Prop.Key.{PropKey}
use k_board.Prop.Key.Order.{key_ord}
use k_board.Prop.Value.{PropValue, is_valid}
use k_board.Element.{ElementId}
use k_board.Document.{live, z_index_for_top}
use k_board.Document.Invariant.{held}
use k_board.Op
use k_board.Board.{
  Board, Change, Reversal, stamp_all, writes, capture, undo, redo, record_change, record_ops,
  mint_id, creation, mutation,
}
use k_board.Board.Replay.{reading, IsBehind, last_set, stamp_all_lem}
use k_board.Board.Command.{Command, ok}
use k_board.Board.Exec.{Assigned, Ran, create, revise, erase, erase_all, exec, key_text}
use k_board.Board.Exec.Behind.{IsAhead, ticks}
use k_board.Board.Exec.Cases.{exec_cases, most_props}
use k_board.Board.Exec.Restores.{capture-captured, capture_missing, length-capture, held_of_reading}
use k_board.Board.Exec.Undo.{
  upsert-stamp_all, delete_each-stamp_all, element-delete_each, captured_keeps, captured_apart,
  last_set-writes_apart, length-writes, length-map, deletes_read, restores_read,
}
use k_board.Board.Exec.Redo.{
  redo-record_change, writes_decide, length-last, writes_stand, last_set-append,
}

module _ (b : Board) (now later again : ℕ) (j : ElementId) (k : PropKey) (v : PropValue)
    (behind : IsBehind b.document b.clock.last)
    (room : b.clock.last.counter + (3 * ticks b + 1) ≤ u32_max) (valid : is_valid v ≡ true)
    (apart : k ≢ PropKey.deleted) where
  abbrev Redoes : Ran → Type 0
  Redoes ran =
      (r : Option Str)
      → ran.1 ≡ ok r
      → reading ran.0.document j k ≡ some v
      → reading (redo (undo ran.0 later).0 again).0.document j k ≡ some v

  not_deleted : equals k PropKey.deleted ≡ false
  not_deleted = ground (arith, apart, same_of_equals k PropKey.deleted)

  recorded :
      (rs : List Reversal) (change : Change) (next : ℕ)
      → length rs ≤ ticks b
      → length change.backward ≤ ticks b
      → length change.forward ≤ ticks b + 1
      → (last_set rs j k (reading b.document j k) ≡ some v
          → last_set change.forward j k (last_set change.backward j k (some v)) ≡ some v)
      → let (clock, ops) = stamp_all b.clock rs now in
        let done = record_change (record b { clock = clock; next_local = next }) ops change in
        reading done.document j k ≡ some v
        → reading (redo (undo done later).0 again).0.document j k ≡ some v
  unfolding record_change record_ops
  recorded rs change next short back fore core h =
      let first = stamp_all_lem b.document b.clock rs now behind (omega (arith, room, short)) in
      let was : last_set rs j k (reading b.document j k) ≡ some v = sym (first.2 j k) ∙ h in
      redo-record_change (record b { next_local = next }) rs change now later again behind
        (omega (arith, room, short, back, fore)) j k
      ∙ ap (λ a. last_set change.forward j k (last_set change.backward j k a)) was
      ∙ core was

  create-Redoes :
      (assigned : Str → Assigned)
      → ((z : Str) → length (assigned z) ≤ most_props)
      → Redoes (create b assigned now)
  unfolding create creation mint_id
  create-Redoes assigned short r accepted =
      let (minted, id) = mint_id b in
      let props = assigned (key_text (z_index_for_top b.document)) in
      let short' = short (key_text (z_index_for_top b.document)) in
      let lift = Reversal.set id PropKey.deleted (PropValue.bool false) ∷ [] in
      rw (upsert-stamp_all id props b.clock now) (
        recorded (writes id props) (creation id props) minted.next_local
          (omega (arith, length-writes id props, short')) (omega arith)
          (omega (
            arith,
            length-writes id props,
            short',
            length-last (writes id props) (Reversal.set id PropKey.deleted (PropValue.bool false)),
          ))
          (λ h.
            last_set-append (writes id props) lift j k _
            ∙ ground (arith, not_deleted, writes_stand id props j k (reading b.document j k) v h)))

  captured_own :
      (id : ElementId) (props : Assigned)
      → j ≡ id
      → last_set (writes id props) j k (reading b.document j k) ≡ some v
      → last_set (writes id props) j k (last_set (capture b id (map (λ p. p.0) props)) j k (some v))
        ≡ some v
  captured_own id props same h =
      let keys = map (λ p. p.0) props in
      let h' : last_set (writes id props) id k (reading b.document id k) ≡ some v =
        subst (λ i. last_set (writes id props) i k (reading b.document i k) ≡ some v) same h in
      subst
        (λ i. last_set (writes id props) i k (last_set (capture b id keys) i k (some v)) ≡ some v)
        (sym same)
        (elim (writes_decide id props k) [
          | inl (w, decided) ↦ decided _ ∙ sym (decided (reading b.document id k)) ∙ h'
          | inr left ↦
              let reads : reading b.document id k ≡ some v = sym (left _) ∙ h' in
              let (e, present, own) = held_of_reading b.document id k v reads in
              left _
              ∙ ap (λ rs. last_set rs id k (some v)) (capture-captured b id keys e present)
              ∙ captured_keeps e id k v own valid keys
        ])

  captured_stands :
      (id : ElementId) (props : Assigned)
      → last_set (writes id props) j k (reading b.document j k) ≡ some v
      → last_set (writes id props) j k (last_set (capture b id (map (λ p. p.0) props)) j k (some v))
        ≡ some v
  captured_stands id props h =
      let keys = map (λ p. p.0) props in
      elim (Bool-cases (equals j id)) [
        | inl here ↦ captured_own id props (same_of_equals j id here) h
        | inr there ↦
            last_set-writes_apart id props j k _ (ground (arith, there))
            ∙ elim (Option-cases (held b.document id)) [
              | inl absent ↦ ap (λ rs. last_set rs j k (some v)) (capture_missing b id keys absent)
              | inr (e, present) ↦
                  ap (λ rs. last_set rs j k (some v)) (capture-captured b id keys e present)
                  ∙ captured_apart e id j k keys (some v) there
            ]
      ]

  revise-Redoes :
      (id : Str) (element : ElementId) (props : Assigned)
      → length props ≤ most_props
      → Redoes (revise b id element props now)
  unfolding revise mutation
  revise-Redoes id element props short r accepted =
      let keys = map (λ p. p.0) props in
      let change = mutation element (capture b element keys) props in
      let n = length-writes element props in
      rw (upsert-stamp_all element props b.clock now) (
        recorded (writes element props) change b.next_local (omega (arith, n, short))
          (omega (arith, short, length-capture b element keys, length-map (λ p. p.0) props))
          (omega (arith, n, short)) (captured_stands element props))

  -- A tombstone changes no other property.
  tombstones_apart :
      (ids : List ElementId)
      → last_set (map Reversal.delete ids) j k (
          last_set
            (map (λ e. Reversal.set e PropKey.deleted (PropValue.bool false)) ids)
            j
            k
            (some v))
        ≡ some v
  tombstones_apart ids = ground (
    arith,
    not_deleted,
    restores_read ids j k (some v),
    deletes_read ids j k (
        last_set (map (λ e. Reversal.set e PropKey.deleted (PropValue.bool false)) ids) j k
          (some v)),
  )

  erase-Redoes : (id : Str) (element : ElementId) → Redoes (erase b id element now)
  unfolding erase stamp_all
  erase-Redoes id element r accepted =
      recorded (map Reversal.delete (element ∷ []))
        (record {
          backward = Reversal.set element PropKey.deleted (PropValue.bool false) ∷ [];
          forward = Reversal.delete element ∷ [];
        })
        b.next_local (omega arith) (omega arith) (omega arith)
        (λ h. tombstones_apart (element ∷ []))

  erase_all-Redoes : Redoes (erase_all b now)
  unfolding erase_all Op.clear
  erase_all-Redoes r accepted =
      let es = live b.document in
      let ids = map (λ e. e.id) es in
      let lifted = λ (e : ElementId). Reversal.set e PropKey.deleted (PropValue.bool false) in
      let change : Change = record {
        backward = map lifted ids;
        forward = map Reversal.delete ids;
      } in
      let n = length-map (λ e. e.id) es in
      rw (element-delete_each es b.clock now, delete_each-stamp_all es b.clock now)
        (recorded (map Reversal.delete ids) change b.next_local
          (omega (arith, n, length-map Reversal.delete ids))
          (omega (arith, n, length-map lifted ids))
          (omega (arith, n, length-map Reversal.delete ids)) (λ h. tombstones_apart ids))

-- After any accepted command, undo and then redo give every property, the tombstone aside, the valid
-- value that the command left it with, on every element. No register is ahead of the clock, and the
-- counter has room.
pub exec-redo :
    (b : Board) (command : Command) (now later again : ℕ) (r : Option Str)
    → IsAhead b (3 * ticks b + 1)
    → (exec b command now).1 ≡ ok r
    → (j : ElementId) (k : PropKey) (v : PropValue) → is_valid v ≡ true
    → k ≢ PropKey.deleted
    → reading (exec b command now).0.document j k ≡ some v
    → reading (redo (undo (exec b command now).0 later).0 again).0.document j k ≡ some v
exec-redo b command now later again r ahead accepted j k v valid apart reads =
    let behind = ahead.behind in
    let room = ahead.room in
    exec_cases b now (Redoes b now later again j k v behind room valid apart)
      (λ e s refused. cc refused) (create-Redoes b now later again j k v behind room valid apart)
      (revise-Redoes b now later again j k v behind room valid apart)
      (erase-Redoes b now later again j k v behind room valid apart)
      (erase_all-Redoes b now later again j k v behind room valid apart) command r accepted reads
