-- ===== src/Document/Tombstones.antt =====
-- Tombstone collection: crates/kboard-core/src/document.rs, `collect_tombstones`.
use k_board.Common.{
  ◌+◌, Bool, false, not, List, [], ◌∷◌, map, none, some, map_or, ◌≡◌, ◌↔◌, refl, ap, ◌∙◌, arith,
  if◌then◌else◌, any, filter, length,
}
use k_board.Common.Order.{equals, nat_ord}
use k_board.Common.Map
use k_board.Common.Map.{Map, Above, IsSorted}
use k_board.Common.Map.Laws.{
  lookup-remove, remove-IsSorted, lookup-Above, lookup_head, lookup_of_tail, Map-ext, lookup_below,
}
use k_board.Clock.{Hlc}
use k_board.Element.{Element, ElementId}
use k_board.Document.{
  Document, Elements, collect_tombstones, remove_all, is_collectable, total_count,
}
use k_board.Document.Shown.{IsSpent, collectable_iff}
use k_board.Document.Invariant.{IsWellFormed}

-- The entries that a test of their elements keeps.
abbrev pub retain : (Element → Bool) → Elements → Elements
retain keep [] = []
retain keep ((id, e) ∷ m) = if keep e then (id, e) ∷ retain keep m else retain keep m

lookup-remove_all :
    (j : ElementId) (ids : List ElementId) (m : Elements)
    → IsSorted m
    → Map.lookup j (remove_all ids m) ≡ (if any (λ i. equals j i) ids then none else Map.lookup j m)
unfolding remove_all
lookup-remove_all j [] m s = refl
lookup-remove_all j (i ∷ ids) m s =
    ground (
      arith,
      lookup-remove_all j ids (Map.remove i m) (remove-IsSorted i m s),
      lookup-remove j i m s,
    )

remove_all-IsSorted :
    (ids : List ElementId) (m : Elements) → IsSorted m → IsSorted (remove_all ids m)
unfolding remove_all
remove_all-IsSorted [] m s = s
remove_all-IsSorted (i ∷ ids) m s = remove_all-IsSorted ids (Map.remove i m) (remove-IsSorted i m s)

-- Each element stands under its own id.
abbrev pub IsFiled : Elements → Type 0
IsFiled [] = Unit
IsFiled ((id, e) ∷ m) = (e.id ≡ id) × IsFiled m

pub IsFiled-of :
    (m : Elements)
    → IsSorted m
    → ((id : ElementId) (e : Element) → Map.lookup id m ≡ some e → e.id ≡ id)
    → IsFiled m
IsFiled-of [] s h = tt
IsFiled-of ((id, e) ∷ m) s h = (
  h id e (lookup_head id e m),
  IsFiled-of m s.1 (λ i f q. h i f (lookup_of_tail i id e f m s.0 q)),
)

-- The ids of the elements that a test picks.
abbrev pub picked : (Element → Bool) → Elements → List ElementId
picked pick m = map (λ e. e.id) (filter pick (Map.values m))

pub any-picked :
    (pick : Element → Bool) (j : ElementId) (m : Elements)
    → IsSorted m
    → IsFiled m
    → any (λ i. equals j i) (picked pick m) ≡ map_or false pick (Map.lookup j m)
unfolding Map.values Map.lookup
any-picked pick j [] s f = refl
any-picked pick j ((id, e) ∷ m) s f = ground (
  arith,
  any-picked pick j m s.1 f.1,
  lookup_below j id m,
  lookup-Above id m s.0,
  nat_ord.same j id,
)

retain-Above :
    (keep : Element → Bool) (id : ElementId) (m : Elements) → Above id m → Above id (retain keep m)
retain-Above keep id [] a = tt
retain-Above keep id ((j, e) ∷ m) a = ground (arith, retain-Above keep id m a.1)

retain-IsSorted : (keep : Element → Bool) (m : Elements) → IsSorted m → IsSorted (retain keep m)
retain-IsSorted keep [] s = tt
retain-IsSorted keep ((j, e) ∷ m) s =
    ground (arith, retain-IsSorted keep m s.1, retain-Above keep j m s.0)

lookup-retain :
    (keep : Element → Bool) (j : ElementId) (m : Elements)
    → IsSorted m
    → Map.lookup j (retain keep m)
      ≡ (if map_or false (λ e. not (keep e)) (Map.lookup j m) then none else Map.lookup j m)
unfolding Map.lookup
lookup-retain keep j [] s = refl
lookup-retain keep j ((id, e) ∷ m) s = ground (
  arith,
  lookup-retain keep j m s.1,
  lookup_below j id m,
  lookup-Above id m s.0,
  lookup_below j id (retain keep m),
  retain-Above keep id m s.0,
  lookup-Above id (retain keep m),
  nat_ord.same j id,
)

length-picked :
    (pick : Element → Bool) (m : Elements)
    → length (retain (λ e. not (pick e)) m) + length (picked pick m) ≡ length m
unfolding Map.values
length-picked pick [] = refl
length-picked pick ((id, e) ∷ m) = ground (arith, length-picked pick m)

collected :
    (pick : Element → Bool) (m : Elements)
    → IsSorted m
    → IsFiled m
    → remove_all (picked pick m) m ≡ retain (λ e. not (pick e)) m
collected pick m s f =
    Map-ext _ _ (remove_all-IsSorted (picked pick m) m s) (retain-IsSorted (λ e. not (pick e)) m s)
      λ j. ground (
        arith,
        lookup-remove_all j (picked pick m) m s,
        any-picked pick j m s f,
        lookup-retain (λ e. not (pick e)) j m s,
      )

-- Collection keeps exactly the entries whose element is not spent, in their order: an element is
-- dropped if it is erased and each of its properties was written before the horizon, and only then.
-- It returns how many it dropped. Each entry of the document must stand under the id of its element,
-- in ascending order.
pub collect_tombstones_lem :
    (d : Document) (horizon : Hlc)
    → IsWellFormed d
    → let (d', count) = collect_tombstones d horizon in
      ((keep : Element → Bool) × ((e : Element) → (keep e ≡ false) ↔ IsSpent horizon e)
        × (d'.elements ≡ retain keep d.elements))
      × (d'.scope ≡ d.scope)
      × (total_count d' + count ≡ total_count d)
unfolding collect_tombstones total_count
collect_tombstones_lem d horizon w =
    let pick = is_collectable horizon in
    let e = collected pick d.elements w.sorted (IsFiled-of d.elements w.sorted w.filed) in
    (
      (
        λ x. not (pick x),
        λ x. (
          λ h. (collectable_iff horizon x).0 (ground arith),
          λ spent. ap not ((collectable_iff horizon x).1 spent),
        ),
        e,
      ),
      refl,
      ap (λ m. length m + length (picked pick d.elements)) e ∙ length-picked pick d.elements,
    )
