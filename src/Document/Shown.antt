-- ===== src/Document/Shown.antt =====
-- What paint order and collection are about, read off the properties of an element:
-- crates/kboard-core/src/document.rs, `ordered` and `collect_tombstones`.
use k_board.Common.{
  ◌≤◌, true, false, ◌&&◌, List, [], ◌∷◌, Option, none, some, map, map_or, unwrap_or, and_then, ap,
  ◌∙◌, ◌≡◌, ◌≢◌, ◌↔◌, ◌⊎◌, refl, arith, All,
}
use Prim.Native.Nat.Ordering.{gt}
use k_board.Common.Order.{bytes_ord, nat_ord, before, greater, Before}
use k_board.Common.Map
use k_board.Common.Text.{Str}
use k_board.Clock.{Hlc}
use k_board.Clock.Order.{hlc_ord}
use k_board.Prop.Key.{PropKey}
use k_board.Prop.Key.Order.{key_ord}
use k_board.Prop.Value.{PropValue, as_bool, as_text}
use k_board.Element
use k_board.Element.{Element, Register, Props, max_from, max_of}
use k_board.Document.{is_collectable, cmp_paint}
open hlc_ord use {same, flipped, chain}

-- The property `deleted` is set, to true.
abbrev pub IsErased : Element → Type 0
IsErased e =
    (r : Register) × (Map.lookup PropKey.deleted e.props ≡ some r) × (r.value ≡ PropValue.bool true)

-- It is erased, and every property was written before the horizon.
abbrev pub IsSpent : Hlc → Element → Type 0
IsSpent horizon e = IsErased e × All (λ r. Before r.stamp horizon) (Map.values e.props)

-- The text of the property for the z-order.
abbrev pub text_of : Option Register → Str
text_of none = []
text_of (some r) = elim r.value [ PropValue.text t ↦ t | _ ↦ [] ]

abbrev pub depth : Element → Str
depth e = text_of (Map.lookup PropKey.z_index e.props)

abbrev pub IsUnder : Element → Element → Type 0
IsUnder e f = Before (depth e) (depth f) ⊎ ((depth e ≡ depth f) × (e.id ≤ f.id))

text_of_value :
    (v : PropValue) → unwrap_or [] (as_text v) ≡ (elim v [ PropValue.text t ↦ t | _ ↦ [] ])
unfolding as_text
text_of_value v =
    elim v as (λ w. unwrap_or [] (as_text w) ≡ (elim w [ PropValue.text t ↦ t | _ ↦ [] ])) [
      | PropValue.text t ↦ refl
      | _ ↦ refl
    ]

text_of_lem :
    (o : Option Register)
    → unwrap_or [] (and_then as_text (elim o [ none ↦ none | some r ↦ some r.value ])) ≡ text_of o
text_of_lem none = refl
text_of_lem (some r) = text_of_value r.value

z_index_lem : (e : Element) → Element.z_index e ≡ depth e
unfolding Element.z_index Element.get
z_index_lem e = text_of_lem (Map.lookup PropKey.z_index e.props)

pub cmp-IsUnder : (e f : Element) → cmp_paint e f ≢ gt → IsUnder e f
unfolding cmp_paint bytes_ord nat_ord
cmp-IsUnder e f h =
    ground (arith, h, z_index_lem e, z_index_lem f, bytes_ord.same (depth e) (depth f))

bool_value : (v : PropValue) → (unwrap_or false (as_bool v) ≡ true) ↔ (v ≡ PropValue.bool true)
unfolding as_bool
bool_value v = elim v [ PropValue.bool b ↦ ground arith | _ ↦ ground arith ]

bool_register :
    (o : Option Register)
    → (unwrap_or false (and_then as_bool (elim o [ none ↦ none | some r ↦ some r.value ])) ≡ true)
      ↔ ((r : Register) × (o ≡ some r) × (r.value ≡ PropValue.bool true))
bool_register none = (λ h. absurd (cc h), λ h. absurd (cc h.1))
bool_register (some r) = (
  λ h. (r, refl, (bool_value r.value).0 h),
  λ (q, same, h).
      (bool_value r.value).1
        (ap (λ o. unwrap_or r.value (and_then (λ x. some x.value) o)) same ∙ h),
)

pub deleted_iff : (e : Element) → (Element.is_deleted e ≡ true) ↔ IsErased e
unfolding Element.is_deleted Element.get
deleted_iff e = bool_register (Map.lookup PropKey.deleted e.props)

before-greater : (a b h : Hlc) → before (greater a b) h ≡ (before a h && before b h)
before-greater a b h = ground (
  arith,
  same a b,
  same a h,
  same b h,
  flipped a b,
  flipped a h,
  flipped b h,
  chain a b h,
  chain b a h,
  chain a h b,
  chain b h a,
)

before-max_from :
    (h s : Hlc) (rs : List Register)
    → (before (max_from s (map (λ r. r.stamp) rs)) h ≡ true)
      ↔ (Before s h × All (λ r. Before r.stamp h) rs)
unfolding max_from
before-max_from h s [] = ground arith
before-max_from h s (r ∷ rs) =
    ground (arith, before-max_from h (greater s r.stamp) rs, before-greater s r.stamp h)

before_all :
    (h : Hlc) (rs : List Register)
    → (map_or false (λ s. before s h) (max_of (map (λ r. r.stamp) rs)) ≡ true)
    → All (λ r. Before r.stamp h) rs
unfolding max_of
before_all h [] e = tt
before_all h (r ∷ rs) e = (before-max_from h r.stamp rs).0 e

all_before :
    (h : Hlc) (props : Props) (key : PropKey) (r : Register)
    → Map.lookup key props ≡ some r
    → All (λ q. Before q.stamp h) (Map.values props)
    → map_or false (λ s. before s h) (max_of (map (λ q. q.stamp) (Map.values props))) ≡ true
unfolding max_of Map.lookup Map.values
all_before h [] key r held a = absurd (cc held)
all_before h ((k, q) ∷ props) key r held a = (before-max_from h q.stamp (Map.values props)).1 a

-- The code's test is that an element is spent.
pub collectable_iff :
    (horizon : Hlc) (e : Element) → (is_collectable horizon e ≡ true) ↔ IsSpent horizon e
unfolding is_collectable Element.max_stamp
collectable_iff horizon e = (
  λ h. ((deleted_iff e).0 (ground arith), before_all horizon (Map.values e.props) (ground arith)),
  λ (erased, a).
      let deleted = (deleted_iff e).1 erased in
      let early = all_before horizon e.props PropKey.deleted erased.0 erased.1 a in
      ground (arith, deleted, early),
)
