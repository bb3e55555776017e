-- ===== src/Board/Exec/Redo.antt =====
-- Undoing a change and doing it again: crates/kboard-ffi/src/board.rs, `undo` and `redo`.
use k_board.Common.{
  ℕ, ◌+◌, ◌≤◌, List, [], ◌∷◌, ◌++◌, Option, some, length, ◌≡◌, ◌⊎◌, refl, ap, sym, ◌∙◌, arith,
  Bool-cases, inl, inr,
}
use k_board.Common.Order.{equals, nat_ord, same_of_equals}
use k_board.Clock.{u32_max}
use k_board.Prop.Key.{PropKey}
use k_board.Prop.Key.Order.{key_ord}
use k_board.Prop.Value.{PropValue}
use k_board.Element.{ElementId}
use k_board.Board.{
  Board, Change, Reversal, stamp_all, writes, undo, undo_from, redo, record_change, replay_change,
  record_ops,
}
use k_board.Board.Replay.{reading, IsBehind, last_set, hits, stamp_all_lem}
use k_board.Board.Exec.{Assigned}
use k_board.Board.Exec.Undo.{bounded_cons, last_set-writes_apart}

-- What is read after a recorded change is undone and done again.
pub redo-record_change :
    (b : Board) (rs : List Reversal) (change : Change) (now later again : ℕ)
    → IsBehind b.document b.clock.last
    → b.clock.last.counter + (length rs + (length change.backward + length change.forward))
      ≤ u32_max
    → (j : ElementId) (k : PropKey)
    → let (clock, ops) = stamp_all b.clock rs now in
      let done = record_change (record b { clock = clock }) ops change in
      reading (redo (undo done later).0 again).0.document j k
      ≡ last_set change.forward j k
          (last_set change.backward j k (last_set rs j k (reading b.document j k)))
unfolding undo redo record_change replay_change record_ops
redo-record_change b rs change now later again behind room j k =
    let first = stamp_all_lem b.document b.clock rs now behind (omega arith) in
    let (clock, ops) = stamp_all b.clock rs now in
    let done = record_change (record b { clock = clock }) ops change in
    let second =
      stamp_all_lem done.document clock change.backward later first.0 (omega (arith, first.1)) in
    let undone = replay_change done change.backward later in
    let third =
      stamp_all_lem undone.document undone.clock change.forward again second.0
        (omega (arith, first.1, second.1)) in
    let (rest, e) = bounded_cons change b.undone in
    ap (λ changes. reading (redo (undo_from done later changes).0 again).0.document j k) e
    ∙ third.2 j k
    ∙ ap (last_set change.forward j k) (second.2 j k)
    ∙ ap (λ a. last_set change.forward j k (last_set change.backward j k a)) (first.2 j k)

-- Writes to an element either decide what is read under a key, or leave it.
pub writes_decide :
    (id : ElementId) (props : Assigned) (k : PropKey)
    → ((w : PropValue) × ((a : Option PropValue) → last_set (writes id props) id k a ≡ some w))
      ⊎ ((a : Option PropValue) → last_set (writes id props) id k a ≡ a)
unfolding writes
writes_decide id [] k = inr (λ a. refl)
writes_decide id ((key, value) ∷ props) k = elim (writes_decide id props k) [
  | inl (w, decided) ↦ inl (w, λ a. decided _)
  | inr left ↦ elim (Bool-cases (hits id key value id k)) [
    | inl hit ↦ inl (value, λ a. left _ ∙ ground (arith, hit))
    | inr missed ↦ inr (λ a. left _ ∙ ground (arith, missed))
  ]
]

writes_again :
    (id : ElementId) (props : Assigned) (k : PropKey) (a : Option PropValue)
    → last_set (writes id props) id k (last_set (writes id props) id k a)
      ≡ last_set (writes id props) id k a
writes_again id props k a = elim (writes_decide id props k) [
  | inl (w, decided) ↦ decided _ ∙ sym (decided a)
  | inr left ↦ left _
]

pub last_set-append :
    (xs ys : List Reversal) (j : ElementId) (k : PropKey) (a : Option PropValue)
    → last_set (xs ++ ys) j k a ≡ last_set ys j k (last_set xs j k a)
last_set-append [] ys j k a = refl
last_set-append (x ∷ xs) ys j k a = last_set-append xs ys j k _

pub length-last : (rs : List Reversal) (r : Reversal) → length (rs ++ r ∷ []) ≡ length rs + 1
length-last [] r = omega arith
length-last (x ∷ rs) r = omega (arith, length-last rs r)

-- Writes that gave a value give it again.
pub writes_stand :
    (id : ElementId) (props : Assigned) (j : ElementId) (k : PropKey) (a : Option PropValue)
    (v : PropValue)
    → last_set (writes id props) j k a ≡ some v
    → last_set (writes id props) j k (some v) ≡ some v
writes_stand id props j k a v h = elim (Bool-cases (equals j id)) [
  | inl here ↦
      let e = same_of_equals j id here in
      let h' : last_set (writes id props) id k a ≡ some v =
        ap (λ i. last_set (writes id props) i k a) (sym e) ∙ h in
      ap (λ i. last_set (writes id props) i k (some v)) e
      ∙ ap (last_set (writes id props) id k) (sym h')
      ∙ writes_again id props k a
      ∙ h'
  | inr there ↦ last_set-writes_apart id props j k (some v) (ground (arith, there))
]
