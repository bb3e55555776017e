-- ===== src/Element/Invariant.antt =====
-- The order of an element's properties is kept by its operations, and an element is determined by
-- its id and its registers: crates/kboard-core/src/element.rs.
use k_board.Common.{
  false, ◌&&◌, Option, some, ◌≡◌, Option-cases, Bool-cases, inl, inr, if◌then◌else◌,
}
use k_board.Common.Order.{equals}
use k_board.Common.Map
use k_board.Common.Map.{IsSorted}
use k_board.Common.Map.Laws.{Map-ext}
use k_board.Common.Map.Merge.{merge_entry, join?}
use k_board.Common.Map.Merge.Laws.{merge_with-IsSorted, merge_entry-IsSorted, lookup-merge_entry}
use k_board.Clock.{Hlc}
use k_board.Lww
use k_board.Lww.{Lww}
use k_board.Lww.Laws.{set-eq-merge}
use k_board.Prop.Key.{PropKey}
use k_board.Prop.Key.Order.{key_ord}
use k_board.Prop.Value.{PropValue, is_valid}
use k_board.Element.{Element, ElementId, Register, new, set, merge}

-- The register that an element holds under a key.
abbrev pub register : Element → PropKey → Option Register
register e key = Map.lookup key e.props

-- The properties of an element are in the order of a `BTreeMap`.
abbrev pub IsOrdered : Element → Type 0
IsOrdered e = IsSorted e.props

pub new-IsOrdered : (id : ElementId) → IsOrdered (new id)
unfolding new
new-IsOrdered id = tt

-- `set` refuses an invalid value, and otherwise merges a register of the value and the stamp in.
pub set-merge_entry :
    (e : Element) (key : PropKey) (value : PropValue) (stamp : Hlc)
    → set e key value stamp ≡ (
        if is_valid value
        then (let (props, changed) = merge_entry Lww.merge e.props key (Lww.new value stamp) in
            (record e { props = props }, changed))
        else (e, false))
unfolding set merge_entry
set-merge_entry e key value stamp = elim (Bool-cases (is_valid value)) [
  | inl valid ↦ elim (Option-cases (Map.lookup key e.props)) [
    | inl absent ↦ rw (valid, set, absent, merge_entry)
    | inr (r, present) ↦ rw (valid, set, present, merge_entry, set-eq-merge)
  ]
  | inr invalid ↦ rw (invalid, set)
]

-- What is read after a `set`.
pub register-set :
    (e : Element) (key : PropKey) (value : PropValue) (stamp : Hlc) (k : PropKey)
    → register (set e key value stamp).0 k ≡ (
        if is_valid value && equals k key
        then join? Lww.merge (register e key) (some (Lww.new value stamp))
        else register e k)
register-set e key value stamp k = elim (Bool-cases (is_valid value)) [
  | inl valid ↦
      rw (set-merge_entry, valid) (lookup-merge_entry Lww.merge k key (Lww.new value stamp) e.props)
  | inr invalid ↦ rw (set-merge_entry, invalid)
]

pub set-IsOrdered :
    (e : Element) (key : PropKey) (value : PropValue) (stamp : Hlc)
    → IsOrdered e
    → IsOrdered (set e key value stamp).0
set-IsOrdered e key value stamp s = elim (Bool-cases (is_valid value)) [
  | inl valid ↦
      rw (set-merge_entry, valid)
        (merge_entry-IsSorted Lww.merge key (Lww.new value stamp) e.props s)
  | inr invalid ↦ rw (set-merge_entry, invalid) s
]

pub set-id :
    (e : Element) (key : PropKey) (value : PropValue) (stamp : Hlc)
    → (set e key value stamp).0.id ≡ e.id
set-id e key value stamp = elim (Bool-cases (is_valid value)) [
  | inl valid ↦ rw (set-merge_entry, valid)
  | inr invalid ↦ rw (set-merge_entry, invalid)
]

pub merge-IsOrdered : (e f : Element) → IsOrdered e → IsOrdered (merge e f).0
unfolding merge
merge-IsOrdered e f s = merge_with-IsSorted Lww.merge e.props f.props s

pub Element-ext :
    (e f : Element)
    → IsOrdered e
    → IsOrdered f
    → e.id ≡ f.id
    → ((k : PropKey) → register e k ≡ register f k)
    → e ≡ f
Element-ext e f s t same h =
    let p = Map-ext e.props f.props s t h in λ i. record { id = same i; props = p i }
