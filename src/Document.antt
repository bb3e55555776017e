-- ===== src/Document.antt =====
-- The document, a map of elements within one scope: crates/kboard-core/src/document.rs.
pub mod Shown
pub mod Invariant
pub mod Write
pub mod Merge
pub mod Join
pub mod Replay
pub mod Tombstones
pub mod Paint
use Prim.Native.Nat.Ordering.{gt}
use k_board.Common.{
  ℕ, ◌+◌, Bool, true, false, ◌&&◌, not, List, [], ◌∷◌, map, Option, none, some, length, filter,
  if◌then◌else◌, Ordering, map_or, last,
}
use k_board.Common.Order.{Ord, nat_ord, bytes_ord, equals, before, then_cmp, cmp_bytes}
use k_board.Common.Map
use k_board.Common.Map.{Map}
use k_board.Common.Map.Merge.{merge_with}
use k_board.Common.Text.{Str}
use k_board.Clock.{Hlc}
use k_board.Frac
use k_board.Clock.Order.{hlc_ord}
use k_board.Prop.Key.{PropKey}
use k_board.Prop.Value.{PropValue}
use k_board.Element
use k_board.Element.{Element, ElementId, max_of}

-- `ScopeId(pub String)`: bytes that the engine only compares.
abbrev pub ScopeId : Type 0
ScopeId = Str

pub data MergeError : Type 0 where
  scope_mismatch : ScopeId → ScopeId → MergeError

-- `Result<A, MergeError>`.
pub data Merged (A : Type 0) : Type 0 where
  ok : A → Merged A
  err : MergeError → Merged A

abbrev pub Elements : Type 0
Elements = Map ElementId Element

pub record Document : Type 0 where
  pub scope : ScopeId
  pub elements : Elements

unfoldable pub new : ScopeId → Document
new scope = record { scope = scope; elements = [] }

unfoldable pub get : Document → ElementId → Option Element
get d id = Map.lookup id d.elements

-- `entry`: the document with an element under the id, and that element.
unfoldable pub entry : Document → ElementId → Document × Element
entry d id = elim (Map.lookup id d.elements) [
  | some e ↦ (d, e)
  | none ↦ (record d { elements = Map.insert id (Element.new id) d.elements }, Element.new id)
]

-- `entry(id).set(key, value, stamp)`: the write goes through the reference into the map.
unfoldable pub entry_set : Document → ElementId → PropKey → PropValue → Hlc → Document × Bool
entry_set d id key value stamp =
    let (d', e) = entry d id in
    let (e', changed) = Element.set e key value stamp in
    (record d' { elements = Map.insert id e' d'.elements }, changed)

-- `all`, `live`, `live_count` and `total_count`.
unfoldable pub all_elements : Document → List Element
all_elements d = Map.values d.elements

unfoldable pub live : Document → List Element
live d = filter (λ e. not (Element.is_deleted e)) (Map.values d.elements)

unfoldable pub live_count : Document → ℕ
live_count d = length (live d)

unfoldable pub total_count : Document → ℕ
total_count d = length d.elements

-- The comparison of `ordered`: by z-order key, then by id.
unfoldable pub cmp_paint : Element → Element → Ordering
cmp_paint left right =
    then_cmp (cmp_bytes (Element.z_index left) (Element.z_index right))
      (nat_ord.cmp left.id right.id)

-- `sort_by`, which is stable: an element goes before those that compare equal to it.
unfoldable pub place : Element → List Element → List Element
place e [] = e ∷ []
place e (f ∷ fs) = elim (cmp_paint e f) [ gt ↦ f ∷ place e fs | _ ↦ e ∷ f ∷ fs ]

unfoldable pub sort_paint : List Element → List Element
sort_paint [] = []
sort_paint (e ∷ es) = place e (sort_paint es)

unfoldable pub ordered : Document → List Element
ordered d = sort_paint (live d)

-- `filter_map(Element::max_stamp)`.
unfoldable pub stamps_of : List Element → List Hlc
stamps_of [] = []
stamps_of (e ∷ es) = let rest = stamps_of es in map_or rest (λ s. s ∷ rest) (Element.max_stamp e)

unfoldable pub max_stamp : Document → Option Hlc
max_stamp d = max_of (stamps_of (Map.values d.elements))

-- `filter(|key| !key.is_empty())`.
abbrev pub filled : Option Str → Option Str
filled none = none
filled (some []) = none
filled (some (b ∷ key)) = some (b ∷ key)

-- The z-order key of the element painted last.
unfoldable pub top_key : Document → Option Str
top_key d = elim (last (ordered d)) [ none ↦ none | some e ↦ some (Element.z_index e) ]

unfoldable pub z_index_for_top : Document → Frac.Outcome
z_index_for_top d = Frac.between (filled (top_key d)) none

-- `merge`: refused across scopes, and otherwise element by element.
unfoldable pub merge : Document → Document → Merged (Document × Bool)
merge d other =
    if equals d.scope other.scope
    then (let (elements, changed) = merge_with Element.merge d.elements other.elements in
        ok (record d { elements = elements }, changed))
    else err (scope_mismatch d.scope other.scope)

unfoldable pub delete : Document → ElementId → Hlc → Document × Bool
delete d id stamp = entry_set d id PropKey.deleted (PropValue.bool true) stamp

-- What `collect_tombstones` collects.
unfoldable pub is_collectable : Hlc → Element → Bool
is_collectable horizon e =
    Element.is_deleted e && map_or false (λ stamp. before stamp horizon) (Element.max_stamp e)

unfoldable pub remove_all : List ElementId → Elements → Elements
remove_all [] m = m
remove_all (id ∷ ids) m = remove_all ids (Map.remove id m)

unfoldable pub collect_tombstones : Document → Hlc → Document × ℕ
collect_tombstones d horizon =
    let collectable = map (λ e. e.id) (filter (is_collectable horizon) (Map.values d.elements)) in
    (record d { elements = remove_all collectable d.elements }, length collectable)
