-- ===== src/Common/Map/Merge.antt =====
-- The loop `for (key, incoming) in &other { match self.get_mut(key) … }`, which merges a map into
-- another, over the merge of two values. Elements merge their properties by it, and documents
-- their elements.
pub mod Laws
use mathlib.Core.Bool.{Bool, true, false, ◌||◌}
use mathlib.Core.List.{[], ◌∷◌}
use mathlib.Core.Option.{Option, none, some}
use k_board.Common.Order.{Ord}
use k_board.Common.Map.{Map, lookup, insert}

-- The value that a merge leaves.
abbrev pub join {κ} : {V : Type κ} → (V → V → V × Bool) → V → V → V
join merge a b = (merge a b).0

-- Two optional values, merged where there are two.
abbrev pub join? {κ} : {V : Type κ} → (V → V → V × Bool) → Option V → Option V → Option V
join? merge none b = b
join? merge (some a) none = some a
join? merge (some a) (some b) = some (join merge a b)

module _ {ℓ κ} {K : Type ℓ} {V : Type κ} ⦃o : Ord K⦄ (merge : V → V → V × Bool) where
  -- One turn: the map afterwards, and whether it changed.
  unfoldable pub merge_entry : Map K V → K → V → Map K V × Bool
  merge_entry m key incoming = elim (lookup key m) [
    | some current ↦
        let (merged, changed) = merge current incoming in (insert key merged m, changed)
    | none ↦ (insert key incoming m, true)
  ]

  -- All turns, with `changed |= …`.
  unfoldable pub merge_with : Map K V → Map K V → Map K V × Bool
  merge_with m [] = (m, false)
  merge_with m ((key, incoming) ∷ others) =
      let (m', changed) = merge_entry m key incoming in
      let (m'', later) = merge_with m' others in (m'', changed || later)
