-- ===== src/Document/Invariant.antt =====
-- The invariant of a document, and that two documents are equal when they hold the same elements:
-- crates/kboard-core/src/document.rs.
use k_board.Common.{
  Option, none, some, ◌≡◌, refl, sym, subst, ◌∙◌, arith, Option-cases, Bool-cases, inl, inr,
  if◌then◌else◌,
}
use k_board.Common.Order.{equals, nat_ord, same_of_equals}
use k_board.Common.Map
use k_board.Common.Map.{IsSorted}
use k_board.Common.Map.Laws.{insert-IsSorted, lookup-insert, Map-ext}
use k_board.Clock.{Hlc}
use k_board.Prop.Key.{PropKey}
use k_board.Prop.Value.{PropValue}
use k_board.Element
use k_board.Element.{Element, ElementId, Register}
use k_board.Element.Invariant.{IsOrdered, new-IsOrdered, set-IsOrdered, set-id}
use k_board.Document.{Document, ScopeId, new, entry, entry_set}

-- The element held under an id.
abbrev pub held : Document → ElementId → Option Element
held d id = Map.lookup id d.elements

-- The elements stand in the order of a `BTreeMap`, each under its own id and with its properties
-- in order.
pub record IsWellFormed (d : Document) : Type 0 where
  pub sorted : IsSorted d.elements
  pub filed : (id : ElementId) (e : Element) → held d id ≡ some e → e.id ≡ id
  pub inner : (id : ElementId) (e : Element) → held d id ≡ some e → IsOrdered e

pub new-IsWellFormed : (scope : ScopeId) → IsWellFormed (new scope)
unfolding new Map.lookup
new-IsWellFormed scope = record { sorted = tt; filed = λ id e h. cc; inner = λ id e h. cc }

-- The element that `entry` returns: the one held, or an empty one.
abbrev pub held_or_new : Document → ElementId → Element
held_or_new d id = elim (held d id) [ none ↦ Element.new id | some e ↦ e ]

pub Document-ext :
    (d f : Document)
    → IsSorted d.elements
    → IsSorted f.elements
    → d.scope ≡ f.scope
    → ((id : ElementId) → held d id ≡ held f id)
    → d ≡ f
Document-ext d f s t same h =
    let p = Map-ext d.elements f.elements s t h in λ i. record { scope = same i; elements = p i }

-- What is held after a write.
pub held-entry_set :
    (d : Document) (id : ElementId) (key : PropKey) (v : PropValue) (t : Hlc) (j : ElementId)
    → held (entry_set d id key v t).0 j
      ≡ (if equals j id then some (Element.set (held_or_new d id) key v t).0 else held d j)
unfolding entry_set entry
held-entry_set d id key v t j = elim (Option-cases (held d id)) [
  | inl absent ↦ ground (
    arith,
    lookup-insert j id (Element.set (Element.new id) key v t).0
        (Map.insert id (Element.new id) d.elements),
    lookup-insert j id (Element.new id) d.elements,
  )
  | inr (e, present) ↦ ground (arith, lookup-insert j id (Element.set e key v t).0 d.elements)
]

entry_set-IsSorted :
    (d : Document) (id : ElementId) (key : PropKey) (v : PropValue) (t : Hlc)
    → IsSorted d.elements
    → IsSorted (entry_set d id key v t).0.elements
unfolding entry_set entry
entry_set-IsSorted d id key v t s = elim (Option-cases (held d id)) [
  | inl absent ↦
      rw (absent, entry_set, entry)
        (insert-IsSorted id _ _ (insert-IsSorted id (Element.new id) d.elements s))
  | inr (e, present) ↦ rw (present, entry_set, entry) (insert-IsSorted id _ d.elements s)
]

pub entry_set-scope :
    (d : Document) (id : ElementId) (key : PropKey) (v : PropValue) (t : Hlc)
    → (entry_set d id key v t).0.scope ≡ d.scope
unfolding entry_set entry
entry_set-scope d id key v t = ground arith

-- The report of a write is that of the write to the element.
pub entry_set-changed :
    (d : Document) (id : ElementId) (key : PropKey) (v : PropValue) (t : Hlc)
    → (entry_set d id key v t).1 ≡ (Element.set (held_or_new d id) key v t).1
unfolding entry_set entry
entry_set-changed d id key v t = ground arith

pub held_or_new-good :
    (d : Document) (id : ElementId)
    → IsWellFormed d
    → ((held_or_new d id).id ≡ id) × IsOrdered (held_or_new d id)
unfolding Element.new
held_or_new-good d id w = elim (Option-cases (held d id)) [
  | inl absent ↦ rw (absent, held_or_new) (refl, new-IsOrdered id)
  | inr (e, present) ↦ rw (present, held_or_new) (w.filed id e present, w.inner id e present)
]

entry_set-held_good :
    (d : Document) (id : ElementId) (key : PropKey) (v : PropValue) (t : Hlc)
    → IsWellFormed d
    → (j : ElementId) (e : Element) → held (entry_set d id key v t).0 j ≡ some e
    → (e.id ≡ j) × IsOrdered e
entry_set-held_good d id key v t w j e h = elim (Bool-cases (equals j id)) [
  | inl here ↦
      let (own, inner) = held_or_new-good d id w in
      let written = (Element.set (held_or_new d id) key v t).0 in
      let reads : some written ≡ some e = cc (rw here at (held-entry_set d id key v t j)) in
      let p : written ≡ e = cc reads in
      subst (λ x. (x.id ≡ j) × IsOrdered x) p
        (
          set-id (held_or_new d id) key v t ∙ own ∙ sym (same_of_equals j id here),
          set-IsOrdered (held_or_new d id) key v t inner,
        )
  | inr there ↦
      let kept : held d j ≡ some e = cc (rw there at (held-entry_set d id key v t j)) in
      (w.filed j e kept, w.inner j e kept)
]

pub entry_set-IsWellFormed :
    (d : Document) (id : ElementId) (key : PropKey) (v : PropValue) (t : Hlc)
    → IsWellFormed d
    → IsWellFormed (entry_set d id key v t).0
entry_set-IsWellFormed d id key v t w = record {
  sorted = entry_set-IsSorted d id key v t w.sorted;
  filed = λ j e h. (entry_set-held_good d id key v t w j e h).0;
  inner = λ j e h. (entry_set-held_good d id key v t w j e h).1;
}
