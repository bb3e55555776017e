-- ===== src/Document/Replay.antt =====
-- Merging in a document after a write to it is merging it in and writing then; a repeated write
-- does nothing more: crates/kboard-core/src/document.rs.
use k_board.Common.{none, some, ◌≡◌, refl, sym, arith, Option-cases, Bool-cases, inl, inr}
use k_board.Common.Order.{equals, nat_ord, same_of_equals, equals_self}
use k_board.Common.Map.Merge.{merge_with}
use k_board.Clock.{Hlc}
use k_board.Prop.Key.{PropKey}
use k_board.Prop.Value.{PropValue}
use k_board.Element
use k_board.Element.{Element, ElementId}
use k_board.Element.Write.{set_again, merge-set, merge-new}
use k_board.Document.{Document, ScopeId, new, entry_set}
use k_board.Document.Invariant.{
  held, held_or_new, held_or_new-good, IsWellFormed, held-entry_set, entry_set-IsWellFormed,
  entry_set-scope, Document-ext,
}
use k_board.Document.Write.{held_or_new-entry_set}
use k_board.Document.Merge.{join, held-join, join-IsWellFormed}

held_again :
    (d : Document) (id : ElementId) (k : PropKey) (v : PropValue) (t : Hlc)
    → IsWellFormed d
    → (x : ElementId)
    → held (entry_set (entry_set d id k v t).0 id k v t).0 x ≡ held (entry_set d id k v t).0 x
held_again d id k v t w x = ground (
  arith,
  held-entry_set (entry_set d id k v t).0 id k v t x,
  held-entry_set d id k v t x,
  held_or_new-entry_set d id k v t id,
  equals_self id,
  set_again (held_or_new d id) k v t (held_or_new-good d id w).1,
)

-- A write to a document that is repeated does nothing more.
pub entry_set_again :
    (d : Document) (id : ElementId) (k : PropKey) (v : PropValue) (t : Hlc)
    → IsWellFormed d
    → (entry_set (entry_set d id k v t).0 id k v t).0 ≡ (entry_set d id k v t).0
entry_set_again d id k v t w =
    let once = entry_set-IsWellFormed d id k v t w in
    Document-ext _ _ (entry_set-IsWellFormed (entry_set d id k v t).0 id k v t once).sorted
      once.sorted (entry_set-scope (entry_set d id k v t).0 id k v t) (held_again d id k v t w)

-- The element that a write to the merged document finds.
held_or_new-join :
    (d f : Document) (id : ElementId) (e : Element)
    → IsWellFormed f
    → held d id ≡ some e
    → held_or_new (join d f) id ≡ (Element.merge e (held_or_new f id)).0
held_or_new-join d f id e w h = elim (Option-cases (held f id)) [
  | inl absent ↦ ground (arith, held-join d f id w, merge-new e id)
  | inr (g, present) ↦ ground (arith, held-join d f id w)
]

held_or_new-join_absent :
    (d f : Document) (id : ElementId)
    → IsWellFormed f
    → held d id ≡ none
    → held_or_new (join d f) id ≡ held_or_new f id
held_or_new-join_absent d f id w h = ground (arith, held-join d f id w)

held-join-entry_set :
    (d f : Document) (id : ElementId) (k : PropKey) (v : PropValue) (t : Hlc)
    → IsWellFormed d
    → IsWellFormed f
    → (x : ElementId)
    → held (join d (entry_set f id k v t).0) x ≡ held (entry_set (join d f) id k v t).0 x
held-join-entry_set d f id k v t wd wf x =
    let after = entry_set-IsWellFormed f id k v t wf in
    let left = held-join d (entry_set f id k v t).0 x after in
    let right = held-entry_set (join d f) id k v t x in
    let wrote = held-entry_set f id k v t x in
    elim (Bool-cases (equals x id)) [
      | inl here ↦ elim (Option-cases (held d id)) [
        | inl absent ↦
            ground (arith, same_of_equals x id here, held_or_new-join_absent d f id wf absent)
        | inr (e, present) ↦ ground (
          arith,
          same_of_equals x id here,
          held_or_new-join d f id e wf present,
          merge-set e (held_or_new f id) k v t (wd.inner id e present) (held_or_new-good f id wf).1,
        )
      ]
      | inr there ↦ ground (arith, held-join d f x wf)
    ]

-- To merge in a document after a write to it is to merge it in and write then.
pub join-entry_set :
    (d f : Document) (id : ElementId) (k : PropKey) (v : PropValue) (t : Hlc)
    → IsWellFormed d
    → IsWellFormed f
    → join d (entry_set f id k v t).0 ≡ (entry_set (join d f) id k v t).0
join-entry_set d f id k v t wd wf =
    let left =
      join-IsWellFormed d (entry_set f id k v t).0 wd (entry_set-IsWellFormed f id k v t wf) in
    let right = entry_set-IsWellFormed (join d f) id k v t (join-IsWellFormed d f wd wf) in
    Document-ext _ _ left.sorted right.sorted (sym (entry_set-scope (join d f) id k v t))
      (held-join-entry_set d f id k v t wd wf)

-- Merging in an empty document does nothing.
pub join-new : (d : Document) (scope : ScopeId) → join d (new scope) ≡ d
unfolding new merge_with
join-new d scope = refl
