-- ===== src/Document/Merge.antt =====
-- Merging documents is a join: crates/kboard-core/src/document.rs, `merge`.
use k_board.Common.{
  Bool, Option, none, some, ◌≡◌, ◌≢◌, refl, ap, sym, subst, ◌∙◌, Bool-cases, inl, inr, and_then,
}
use k_board.Common.Order.{equals, nat_ord, bytes_ord, same_of_equals, equals_self}
use k_board.Common.Map.Merge.{join?, merge_with}
use k_board.Common.Map.Merge.Laws.{
  lookup-merge_with, merge_with_comm, merge_with_assoc, merge_with_absorb, merge_with-IsSorted,
}
use k_board.Element
use k_board.Element.{Element, ElementId, Register}
use k_board.Element.Invariant.{register, IsOrdered, merge-IsOrdered}
use k_board.Element.Merge as Elements
use k_board.Element.Merge.{Agree?, ElementsAgree}
use k_board.Prop.Key.{PropKey}
use k_board.Document.{Document, Merged, ok, err, scope_mismatch, merge}
use k_board.Document.Invariant.{held, IsWellFormed}

-- The register of a property of an element, where both are there.
abbrev pub register_at : Document → ElementId → PropKey → Option Register
register_at d id key = and_then (λ e. register e key) (held d id)

-- A stamp that both documents have under one property of one element is there with one value.
abbrev pub DocumentsAgree : Document → Document → Type 0
DocumentsAgree d f =
    (id : ElementId) (key : PropKey) → Agree? (register_at d id key) (register_at f id key)

-- The merge within one scope.
abbrev pub join : Document → Document → Document
join d f = record d { elements = (merge_with Element.merge d.elements f.elements).0 }

-- The document that a merge leaves, if it is not refused.
abbrev pub merged : Merged (Document × Bool) → Option Document
merged (ok (d, changed)) = some d
merged (err e) = none

pub merge_within :
    (d f : Document)
    → d.scope ≡ f.scope
    → merge d f ≡ ok (join d f, (merge_with Element.merge d.elements f.elements).1)
unfolding merge
merge_within d f h = rw (h, equals_self f.scope)

pub merge_across :
    (d f : Document) → d.scope ≢ f.scope → merge d f ≡ err (scope_mismatch d.scope f.scope)
unfolding merge
merge_across d f h = elim (Bool-cases (equals d.scope f.scope)) [
  | inl same ↦ absurd (h (same_of_equals d.scope f.scope same))
  | inr apart ↦ rw apart
]

-- The element under its own id, with its properties in order.
abbrev Good : ElementId → Element → Type 0
Good id e = (e.id ≡ id) × IsOrdered e

good :
    (d : Document)
    → IsWellFormed d
    → (id : ElementId) (e : Element) → held d id ≡ some e
    → Good id e
good d w id e h = (w.filed id e h, w.inner id e h)

-- What is held after a merge.
pub held-join :
    (d f : Document) (id : ElementId)
    → IsWellFormed f
    → held (join d f) id ≡ join? Element.merge (held d id) (held f id)
held-join d f id w = lookup-merge_with Element.merge id d.elements f.elements w.sorted

pair-Good :
    (id : ElementId) (a b : Option Element)
    → ((e : Element) → a ≡ some e → Good id e)
    → ((e : Element) → b ≡ some e → Good id e)
    → (e : Element) → join? Element.merge a b ≡ some e
    → Good id e
unfolding Element.merge
pair-Good id none b ga gb e h = gb e h
pair-Good id (some a) none ga gb e h = ga e h
pair-Good id (some a) (some b) ga gb e h =
    let p : (Element.merge a b).0 ≡ e = cc in
    subst (Good id) p ((ga a refl).0, merge-IsOrdered a b (ga a refl).1)

pub join-IsWellFormed : (d f : Document) → IsWellFormed d → IsWellFormed f → IsWellFormed (join d f)
join-IsWellFormed d f wd wf =
    let all = λ (id : ElementId) (e : Element) (h : held (join d f) id ≡ some e).
      pair-Good id (held d id) (held f id) (good d wd id) (good f wf id) e
        (sym (held-join d f id wf) ∙ h) in
    record {
      sorted = merge_with-IsSorted Element.merge d.elements f.elements wd.sorted;
      filed = λ id e h. (all id e h).0;
      inner = λ id e h. (all id e h).1;
    }

pair_comm :
    (id : ElementId) (a b : Option Element)
    → ((e : Element) → a ≡ some e → Good id e)
    → ((e : Element) → b ≡ some e → Good id e)
    → ((key : PropKey)
        → Agree? (and_then (λ e. register e key) a) (and_then (λ e. register e key) b))
    → join? Element.merge a b ≡ join? Element.merge b a
pair_comm id none none ga gb agree = refl
pair_comm id none (some b) ga gb agree = refl
pair_comm id (some a) none ga gb agree = refl
pair_comm id (some a) (some b) ga gb agree =
    let (ia, oa) = ga a refl in
    let (ib, ob) = gb b refl in ap some (Elements.merge_comm a b oa ob (ia ∙ sym ib) agree)

pub join_comm :
    (d f : Document)
    → IsWellFormed d
    → IsWellFormed f
    → d.scope ≡ f.scope
    → DocumentsAgree d f
    → join d f ≡ join f d
join_comm d f wd wf same agree =
    let p =
      merge_with_comm Element.merge d.elements f.elements wd.sorted wf.sorted
        (λ id. pair_comm id (held d id) (held f id) (good d wd id) (good f wf id) (agree id)) in
    λ i. record { scope = same i; elements = p i }

pair_assoc :
    (id : ElementId) (a b c : Option Element)
    → ((e : Element) → a ≡ some e → Good id e)
    → ((e : Element) → b ≡ some e → Good id e)
    → ((e : Element) → c ≡ some e → Good id e)
    → join? Element.merge (join? Element.merge a b) c
      ≡ join? Element.merge a (join? Element.merge b c)
pair_assoc id none b c ga gb gc = refl
pair_assoc id (some a) none c ga gb gc = refl
pair_assoc id (some a) (some b) none ga gb gc = refl
pair_assoc id (some a) (some b) (some c) ga gb gc =
    ap some (Elements.merge_assoc a b c (ga a refl).1 (gb b refl).1 (gc c refl).1)

pub join_assoc :
    (d e f : Document)
    → IsWellFormed d
    → IsWellFormed e
    → IsWellFormed f
    → join (join d e) f ≡ join d (join e f)
join_assoc d e f wd we wf =
    let p =
      merge_with_assoc Element.merge d.elements e.elements f.elements wd.sorted we.sorted wf.sorted
        (λ id.
          pair_assoc id (held d id) (held e id) (held f id) (good d wd id) (good e we id)
            (good f wf id)) in
    λ i. record { scope = d.scope; elements = p i }

pair_idem :
    (id : ElementId) (a : Option Element)
    → ((e : Element) → a ≡ some e → Good id e)
    → join? Element.merge a a ≡ a
pair_idem id none ga = refl
pair_idem id (some a) ga = ap some (Elements.merge_idem a (ga a refl).1)

pub join_idem : (d : Document) → IsWellFormed d → join d d ≡ d
join_idem d w =
    let p =
      merge_with_absorb Element.merge d.elements d.elements w.sorted w.sorted
        (λ id. pair_idem id (held d id) (good d w id)) in
    λ i. record { scope = d.scope; elements = p i }
