-- ===== src/Document/Write.antt =====
-- Writes to a document commute: crates/kboard-core/src/document.rs, `entry`.
use k_board.Common.{true, ◌≡◌, sym, ◌∙◌, arith, if◌then◌else◌}
use k_board.Common.Order.{equals, nat_ord, same_of_equals, equals_self}
use k_board.Clock.{Hlc}
use k_board.Prop.Key.{PropKey}
use k_board.Prop.Value.{PropValue}
use k_board.Element
use k_board.Element.{Element, ElementId}
use k_board.Element.Write.{set_swap}
use k_board.Document.{Document, entry_set}
use k_board.Document.Invariant.{
  held, held_or_new, held_or_new-good, IsWellFormed, held-entry_set, entry_set-IsWellFormed,
  entry_set-scope, Document-ext,
}

-- The element that a later `entry` finds.
pub held_or_new-entry_set :
    (d : Document) (id : ElementId) (key : PropKey) (v : PropValue) (t : Hlc) (j : ElementId)
    → held_or_new (entry_set d id key v t).0 j
      ≡ (if equals j id then (Element.set (held_or_new d id) key v t).0 else held_or_new d j)
held_or_new-entry_set d id key v t j = ground (arith, held-entry_set d id key v t j)

held_swap :
    (d : Document) (a b : ElementId) (j k : PropKey) (v w : PropValue) (s t : Hlc)
    → IsWellFormed d
    → (a ≡ b → j ≡ k → s ≡ t → v ≡ w)
    → (x : ElementId)
    → held (entry_set (entry_set d a j v s).0 b k w t).0 x
      ≡ held (entry_set (entry_set d b k w t).0 a j v s).0 x
held_swap d a b j k v w s t wf one x =
    let e = held_or_new d a in
    let swapped : equals a b ≡ true
        → (Element.set (Element.set e j v s).0 k w t).0
          ≡ (Element.set (Element.set e k w t).0 j v s).0 =
      λ h. set_swap e j k v w s t (held_or_new-good d a wf).1 (one (same_of_equals a b h)) in
    ground (
      arith,
      held-entry_set (entry_set d a j v s).0 b k w t x,
      held-entry_set (entry_set d b k w t).0 a j v s x,
      held-entry_set d a j v s x,
      held-entry_set d b k w t x,
      held_or_new-entry_set d a j v s b,
      held_or_new-entry_set d b k w t a,
      same_of_equals x a,
      same_of_equals x b,
      same_of_equals a b,
      equals_self a,
      equals_self b,
    )

-- Two writes to a document commute, unless they give one stamp to two values of one property.
pub entry_set_swap :
    (d : Document) (a b : ElementId) (j k : PropKey) (v w : PropValue) (s t : Hlc)
    → IsWellFormed d
    → (a ≡ b → j ≡ k → s ≡ t → v ≡ w)
    → (entry_set (entry_set d a j v s).0 b k w t).0 ≡ (entry_set (entry_set d b k w t).0 a j v s).0
entry_set_swap d a b j k v w s t wf one =
    let da = (entry_set d a j v s).0 in
    let db = (entry_set d b k w t).0 in
    let wa = entry_set-IsWellFormed d a j v s wf in
    let wb = entry_set-IsWellFormed d b k w t wf in
    let wab = entry_set-IsWellFormed da b k w t wa in
    let wba = entry_set-IsWellFormed db a j v s wb in
    Document-ext _ _ wab.sorted wba.sorted
      (entry_set-scope da b k w t
        ∙ entry_set-scope d a j v s
        ∙ sym (entry_set-scope db a j v s ∙ entry_set-scope d b k w t))
      (held_swap d a b j k v w s t wf one)
