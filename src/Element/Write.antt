-- ===== src/Element/Write.antt =====
-- Local writes: crates/kboard-core/src/element.rs, `set`.
use k_board.Common.{true, Option, some, ◌≡◌, refl, ap, sym, ◌∙◌, arith}
use k_board.Common.Order.{equals, same_of_equals, equals_self}
use k_board.Common.Map.Merge.{merge_with}
use k_board.Clock.{Hlc}
use k_board.Clock.Order.{hlc_ord}
use k_board.Lww
use k_board.Lww.{Lww}
use k_board.Lww.Laws.{Agree}
use k_board.Prop.Key.{PropKey}
use k_board.Prop.Key.Order.{key_ord}
use k_board.Prop.Value.{PropValue}
use k_board.Element
use k_board.Element.{Element, ElementId, Register, set, merge}
use k_board.Element.Invariant.{
  register, IsOrdered, register-set, set-IsOrdered, set-id, Element-ext, merge-IsOrdered,
}
use k_board.Element.Merge.{
  join_registers, join_registers_assoc, join_registers_comm, join_registers_idem, Agree?,
  register-merge,
}

pub join_registers_swap :
    (a b c : Option Register)
    → Agree? b c
    → join_registers (join_registers a b) c ≡ join_registers (join_registers a c) b
join_registers_swap a b c h =
    join_registers_assoc a b c
    ∙ ap (join_registers a) (join_registers_comm b c h)
    ∙ sym (join_registers_assoc a c b)

Agree-new : (v w : PropValue) (s t : Hlc) → (s ≡ t → v ≡ w) → Agree (Lww.new v s) (Lww.new w t)
unfolding Lww.new
Agree-new v w s t one = one

registers_swap :
    (e : Element) (j k : PropKey) (v w : PropValue) (s t : Hlc)
    → (j ≡ k → s ≡ t → v ≡ w)
    → (i : PropKey)
    → register (set (set e j v s).0 k w t).0 i ≡ register (set (set e k w t).0 j v s).0 i
registers_swap e j k v w s t one i =
    let a = some (Lww.new v s) in
    let b = some (Lww.new w t) in
    let swapped : equals j k ≡ true
        → join_registers (join_registers (register e j) a) b
          ≡ join_registers (join_registers (register e j) b) a =
      λ h.
        join_registers_swap (register e j) a b (Agree-new v w s t (one (same_of_equals j k h))) in
    ground (
      arith,
      register-set (set e j v s).0 k w t i,
      register-set (set e k w t).0 j v s i,
      register-set e j v s i,
      register-set e k w t i,
      register-set e j v s k,
      register-set e k w t j,
      same_of_equals i j,
      same_of_equals i k,
      equals_self j,
      equals_self k,
    )

-- Two writes to an element commute, unless they give one stamp to two values of one key.
pub set_swap :
    (e : Element) (j k : PropKey) (v w : PropValue) (s t : Hlc)
    → IsOrdered e
    → (j ≡ k → s ≡ t → v ≡ w)
    → (set (set e j v s).0 k w t).0 ≡ (set (set e k w t).0 j v s).0
set_swap e j k v w s t ordered one =
    Element-ext _ _ (set-IsOrdered (set e j v s).0 k w t (set-IsOrdered e j v s ordered))
      (set-IsOrdered (set e k w t).0 j v s (set-IsOrdered e k w t ordered))
      (set-id (set e j v s).0 k w t
        ∙ set-id e j v s
        ∙ sym (set-id (set e k w t).0 j v s ∙ set-id e k w t))
      (registers_swap e j k v w s t one)

registers_again :
    (e : Element) (k : PropKey) (v : PropValue) (t : Hlc) (i : PropKey)
    → register (set (set e k v t).0 k v t).0 i ≡ register (set e k v t).0 i
registers_again e k v t i =
    let a = register e k in
    let b = some (Lww.new v t) in
    let again : join_registers (join_registers a b) b ≡ join_registers a b =
      join_registers_assoc a b b ∙ ap (join_registers a) (join_registers_idem b) in
    ground (
      arith,
      register-set (set e k v t).0 k v t i,
      register-set e k v t i,
      register-set e k v t k,
      same_of_equals i k,
      equals_self k,
    )

-- A write that is repeated does nothing more.
pub set_again :
    (e : Element) (k : PropKey) (v : PropValue) (t : Hlc)
    → IsOrdered e
    → (set (set e k v t).0 k v t).0 ≡ (set e k v t).0
set_again e k v t ordered =
    let once = set-IsOrdered e k v t ordered in
    Element-ext _ _ (set-IsOrdered (set e k v t).0 k v t once) once (set-id (set e k v t).0 k v t)
      (registers_again e k v t)

merge-id : (e f : Element) → (merge e f).0.id ≡ e.id
unfolding merge
merge-id e f = refl

registers_merge-set :
    (e f : Element) (k : PropKey) (v : PropValue) (t : Hlc)
    → IsOrdered f
    → (i : PropKey)
    → register (merge e (set f k v t).0).0 i ≡ register (set (merge e f).0 k v t).0 i
registers_merge-set e f k v t ordered i = ground (
  arith,
  register-merge e (set f k v t).0 i (set-IsOrdered f k v t ordered),
  register-merge e f i ordered,
  register-merge e f k ordered,
  register-set f k v t i,
  register-set (merge e f).0 k v t i,
  same_of_equals i k,
  join_registers_assoc (register e k) (register f k) (some (Lww.new v t)),
)

-- To merge in an element after a write to it is to merge it in and write then.
pub merge-set :
    (e f : Element) (k : PropKey) (v : PropValue) (t : Hlc)
    → IsOrdered e
    → IsOrdered f
    → (merge e (set f k v t).0).0 ≡ (set (merge e f).0 k v t).0
merge-set e f k v t oe fo =
    Element-ext _ _ (merge-IsOrdered e (set f k v t).0 oe)
      (set-IsOrdered (merge e f).0 k v t (merge-IsOrdered e f oe))
      (merge-id e (set f k v t).0 ∙ sym (merge-id e f) ∙ sym (set-id (merge e f).0 k v t))
      (registers_merge-set e f k v t fo)

-- Merging in an empty element does nothing.
pub merge-new : (e : Element) (id : ElementId) → (merge e (Element.new id)).0 ≡ e
unfolding merge Element.new merge_with
merge-new e id = refl
