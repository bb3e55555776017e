-- ===== src/Element/Outcome.antt =====
-- What a local write does on every branch, and that concurrent edits of different properties both
-- survive: crates/kboard-core/src/element.rs, `set` and `merge`.
use k_board.Common.{
  true, false, Option, none, some, ◌≡◌, ◌≢◌, ◌↔◌, refl, ap₂, sym, ◌∙◌, arith, Bool-cases, inl, inr,
  Option-cases,
}
use Prim.Native.Nat.Ordering.{lt}
use k_board.Common.Order.{same_of_equals, equals_self}
use k_board.Common.Map
use k_board.Common.Map.Laws.{lookup-insert, insert_same}
use k_board.Common.Map.Merge.{merge_entry}
use k_board.Common.Map.Merge.Laws.{lookup-merge_entry}
use k_board.Clock.{Hlc, cmp_hlc}
use k_board.Clock.Order.{hlc_ord, cmp_hlc-IsTotal}
use k_board.Lww
use k_board.Lww.{Lww}
use k_board.Prop.Key.{PropKey}
use k_board.Prop.Key.Order.{key_ord}
use k_board.Prop.Value.{PropValue, is_valid}
use k_board.Element.{Element, Register, get, set, merge}
use k_board.Element.Invariant.{register, IsOrdered, set-IsOrdered, set-merge_entry}
use k_board.Element.Merge.{join_registers, join_registers_idem, register-merge}
open cmp_hlc-IsTotal use {flipped}

-- Whether a stamp beats what is held: it is above the register's, or nothing is held.
abbrev pub Beats : Option Register → Hlc → Type 0
Beats none t = Unit
Beats (some r) t = cmp_hlc r.stamp t ≡ lt

-- The outcome of one write of a valid value, over the register that is held.
turn_outcome :
    (props : Map.Map PropKey Register) (key : PropKey) (v : PropValue) (t : Hlc)
    → let (props', changed) = merge_entry Lww.merge props key (Lww.new v t) in
      ((changed ≡ true) ↔ Beats (Map.lookup key props) t)
      × (changed ≡ true → Map.lookup key props' ≡ some (Lww.new v t))
      × (changed ≡ false → props' ≡ props)
unfolding merge_entry Lww.merge Lww.new hlc_ord
turn_outcome props key v t = elim (Option-cases (Map.lookup key props)) [
  | inl absent ↦ ground (arith, lookup-insert key key (Lww.new v t) props, equals_self key)
  | inr (r, present) ↦ ground (
    arith,
    lookup-insert key key (Lww.new v t) props,
    equals_self key,
    insert_same key r props present,
  )
]

-- A write takes effect exactly when its value is valid and its stamp beats what is held. Then the
-- element holds the value under the stamp; otherwise it stays as it was. Every other key is left
-- alone.
pub set_outcome :
    (e : Element) (key : PropKey) (v : PropValue) (t : Hlc)
    → let (e', changed) = set e key v t in
      ((changed ≡ true) ↔ ((is_valid v ≡ true) × Beats (register e key) t))
      × (changed ≡ true → register e' key ≡ some (Lww.new v t))
      × (changed ≡ false → e' ≡ e)
      × ((k : PropKey) → k ≢ key → register e' k ≡ register e k)
set_outcome e key v t = elim (Bool-cases (is_valid v)) [
  | inl valid ↦
      let turn = turn_outcome e.props key v t in
      rw (set-merge_entry, valid)
        (
          (λ c. (refl, turn.0.0 c), λ h. turn.0.1 h.1),
          turn.1,
          λ c i. record { id = e.id; props = turn.2 c i },
          λ k n. ground (
            arith,
            lookup-merge_entry Lww.merge k key (Lww.new v t) e.props,
            same_of_equals k key,
          ),
        )
  | inr invalid ↦
      rw (set-merge_entry, invalid) ((λ c. cc, λ h. cc), λ c. cc, λ c. refl, λ k n. refl)
]

beaten_stays :
    (a : Option Register) (v : PropValue) (t : Hlc)
    → Beats a t
    → join_registers (some (Lww.new v t)) a ≡ some (Lww.new v t)
unfolding Lww.merge Lww.new hlc_ord
beaten_stays none v t h = refl
beaten_stays (some r) v t h = ground (arith, flipped r.stamp t)

pub beaten_yields :
    (a : Option Register) (v : PropValue) (t : Hlc)
    → Beats a t
    → join_registers a (some (Lww.new v t)) ≡ some (Lww.new v t)
unfolding Lww.merge Lww.new hlc_ord
beaten_yields none v t h = refl
beaten_yields (some r) v t h = ground arith

get_of_register :
    (e : Element) (k : PropKey) (v : PropValue) (t : Hlc)
    → register e k ≡ some (Lww.new v t)
    → get e k ≡ some v
unfolding get Lww.new
get_of_register e k v t h = ground arith

get_of_same : (e f : Element) (k : PropKey) → register e k ≡ register f k → get e k ≡ get f k
unfolding get
get_of_same e f k h = ground arith

-- Two people write different properties of one element, and each write takes effect where it is
-- made. After a merge the element holds both values, and every other property as before.
pub concurrent_edits_survive :
    (e : Element) (j k : PropKey) (v w : PropValue) (s t : Hlc)
    → IsOrdered e
    → j ≢ k
    → (set e j v s).1 ≡ true
    → (set e k w t).1 ≡ true
    → let merged = (merge (set e j v s).0 (set e k w t).0).0 in
      (get merged j ≡ some v)
      × (get merged k ≡ some w)
      × ((i : PropKey) → i ≢ j → i ≢ k → get merged i ≡ get e i)
concurrent_edits_survive e j k v w s t ordered apart ej ek =
    let left = (set e j v s).0 in
    let right = (set e k w t).0 in
    let d = set_outcome e j v s in
    let f = set_outcome e k w t in
    let merged = λ (i : PropKey). register-merge left right i (set-IsOrdered e k w t ordered) in
    (
      get_of_register (merge left right).0 j v s (
          merged j
          ∙ ap₂ join_registers (d.1 ej) (f.3 j apart)
          ∙ beaten_stays (register e j) v s (d.0.0 ej).1),
      get_of_register (merge left right).0 k w t (
          merged k
          ∙ ap₂ join_registers (d.3 k (λ h. apart (sym h))) (f.1 ek)
          ∙ beaten_yields (register e k) w t (f.0.0 ek).1),
      λ i ni nk. get_of_same (merge left right).0 e i (
          merged i ∙ ap₂ join_registers (d.3 i ni) (f.3 i nk) ∙ join_registers_idem (register e i)),
    )
