-- ===== src/Element/Merge.antt =====
-- Merging elements is a join, register by register: crates/kboard-core/src/element.rs, `merge`.
use k_board.Common.{false, Option, none, some, ◌≡◌, ◌↔◌, refl, ap}
use k_board.Common.Map.Merge.{join?}
use k_board.Common.Map.Merge.Laws.{
  lookup-merge_with, merge_with_comm, merge_with_assoc, merge_with_absorb, merge_with-changed,
}
use k_board.Lww
use k_board.Lww.{Lww}
use k_board.Lww.Laws.{Agree, join_comm, join_assoc, join_idem, merge-changed}
use k_board.Prop.Key.{PropKey}
use k_board.Prop.Key.Order.{key_ord}
use k_board.Element.{Element, Register, merge}
use k_board.Element.Invariant.{register, IsOrdered}

-- Where both elements hold a register, it agrees.
abbrev pub Agree? : Option Register → Option Register → Type 0
Agree? (some r) (some s) = Agree r s
Agree? _ _ = Unit

abbrev pub ElementsAgree : Element → Element → Type 0
ElementsAgree e f = (k : PropKey) → Agree? (register e k) (register f k)

-- The merge of two optional registers.
abbrev pub join_registers : Option Register → Option Register → Option Register
join_registers = join? Lww.merge

pub join_registers_comm :
    (a b : Option Register) → Agree? a b → join_registers a b ≡ join_registers b a
join_registers_comm none none h = refl
join_registers_comm none (some s) h = refl
join_registers_comm (some r) none h = refl
join_registers_comm (some r) (some s) h = ap some (join_comm r s h)

pub join_registers_assoc :
    (a b c : Option Register)
    → join_registers (join_registers a b) c ≡ join_registers a (join_registers b c)
join_registers_assoc none b c = refl
join_registers_assoc (some r) none c = refl
join_registers_assoc (some r) (some s) none = refl
join_registers_assoc (some r) (some s) (some t) = ap some (join_assoc r s t)

pub join_registers_idem : (a : Option Register) → join_registers a a ≡ a
join_registers_idem none = refl
join_registers_idem (some r) = ap some (join_idem r)

-- What is read after a merge.
pub register-merge :
    (e f : Element) (k : PropKey)
    → IsOrdered f
    → register (merge e f).0 k ≡ join_registers (register e k) (register f k)
unfolding merge
register-merge e f k s = lookup-merge_with Lww.merge k e.props f.props s

-- Merging elements of one id is commutative where their registers agree, so that two replicas end
-- up with the same element.
pub merge_comm :
    (e f : Element)
    → IsOrdered e
    → IsOrdered f
    → e.id ≡ f.id
    → ElementsAgree e f
    → (merge e f).0 ≡ (merge f e).0
unfolding merge
merge_comm e f s t same agree =
    let p =
      merge_with_comm Lww.merge e.props f.props s t
        (λ k. join_registers_comm (register e k) (register f k) (agree k)) in
    λ i. record { id = same i; props = p i }

pub merge_assoc :
    (d e f : Element)
    → IsOrdered d
    → IsOrdered e
    → IsOrdered f
    → (merge (merge d e).0 f).0 ≡ (merge d (merge e f).0).0
unfolding merge
merge_assoc d e f r s t =
    let p =
      merge_with_assoc Lww.merge d.props e.props f.props r s t
        (λ k. join_registers_assoc (register d k) (register e k) (register f k)) in
    λ i. record { id = d.id; props = p i }

pub merge_idem : (e : Element) → IsOrdered e → (merge e e).0 ≡ e
unfolding merge
merge_idem e s =
    let p =
      merge_with_absorb Lww.merge e.props e.props s s (λ k. join_registers_idem (register e k)) in
    λ i. record { id = e.id; props = p i }

-- A merge reports a change exactly when it changes the element.
pub merge-changed_iff :
    (e f : Element) → IsOrdered f → ((merge e f).1 ≡ false) ↔ ((merge e f).0 ≡ e)
unfolding merge
merge-changed_iff e f t =
    let iff = merge_with-changed Lww.merge e.props f.props t (λ k r s p q. merge-changed r s) in
    (
      λ h. let p = iff.0 h in λ i. record { id = e.id; props = p i },
      λ h. iff.1 (ap (λ d. d.props) h),
    )
