-- ===== src/Store/Scopes.antt =====
-- The scopes that a store knows: crates/kboard-store/src/lib.rs, `scopes`, a query over the columns
-- `scope` of the two tables.
pub mod Kept
use k_board.Common.{
  true, false, ◌||◌, ◌&&◌, List, [], ◌∷◌, ◌++◌, Option, none, some, map, ◌≡◌, refl, ap₂, ◌∙◌, arith,
  Bool, is_some, All,
}
use k_board.Common.Order.{bytes_ord, equals, Before}
use k_board.Common.Map
use k_board.Common.Map.{Map, Above, IsSorted}
use k_board.Common.Map.Laws.{lookup-insert, Above-trans, insert-IsSorted}
use k_board.Document.{ScopeId}
use k_board.Store.{Rows, Tables}

-- The set that `UNION` and `ORDER BY` make of a list of names: ascending, each name once.
unfoldable pub union : List ScopeId → Map {0, 0} ScopeId Unit
union [] = []
union (scope ∷ rest) = Map.insert scope tt (union rest)

-- The column `scope` of `snapshots`, and that of `operations`, which has an entry for each row.
abbrev pub column : {Q : Type 0} → Map ScopeId Q → List ScopeId
column table = map (λ row. row.0) table

unfoldable pub logged : {P : Type 0} → Map ScopeId (Rows P) → List ScopeId
logged [] = []
logged ((scope, table) ∷ rest) = map (λ row. scope) table ++ logged rest

unfoldable pub scopes : {P Q : Type 0} → Tables P Q → List ScopeId
scopes t = column (union (column t.snapshots ++ logged t.operations))

-- `contains`, for a list of names.
unfoldable pub contains : ScopeId → List ScopeId → Bool
contains scope [] = false
contains scope (s ∷ rest) = equals scope s || contains scope rest

-- Each name comes before all that follow it.
abbrev pub IsAscending : List ScopeId → Type 0
IsAscending [] = Unit
IsAscending (scope ∷ rest) = All (λ s. Before scope s) rest × IsAscending rest

abbrev pub has_rows : {P : Type 0} → Option (Rows P) → Bool
has_rows none = false
has_rows (some []) = false
has_rows (some (row ∷ table)) = true

contains-append :
    (scope : ScopeId) (xs ys : List ScopeId)
    → contains scope (xs ++ ys) ≡ (contains scope xs || contains scope ys)
unfolding contains
contains-append scope [] ys = refl
contains-append scope (x ∷ xs) ys = ground (arith, contains-append scope xs ys)

contains-union :
    (scope : ScopeId) (xs : List ScopeId)
    → is_some (Map.lookup scope (union xs)) ≡ contains scope xs
unfolding contains union Map.lookup
contains-union scope [] = refl
contains-union scope (x ∷ xs) =
    ground (arith, contains-union scope xs, lookup-insert scope x tt (union xs))

union-IsSorted : (xs : List ScopeId) → IsSorted (union xs)
unfolding union
union-IsSorted [] = tt
union-IsSorted (x ∷ xs) = insert-IsSorted x tt (union xs) (union-IsSorted xs)

All-column :
    {Q : Type 0}
    → (scope : ScopeId) (table : Map ScopeId Q) → Above scope table
    → All (λ s. Before scope s) (column table)
All-column scope [] a = tt
All-column scope (row ∷ table) a = (a.0, All-column scope table a.1)

IsAscending-column :
    {Q : Type 0} → (table : Map ScopeId Q) → IsSorted table → IsAscending (column table)
IsAscending-column [] s = tt
IsAscending-column ((scope, q) ∷ table) s =
    (All-column scope table s.0, IsAscending-column table s.1)

contains_below :
    {Q : Type 0}
    → (scope : ScopeId) (table : Map ScopeId Q) → Above scope table
    → contains scope (column table) ≡ false
unfolding contains
contains_below scope [] a = refl
contains_below scope (row ∷ table) a = ground (arith, contains_below scope table a.1, a.0)

contains-column :
    {Q : Type 0}
    → (scope : ScopeId) (table : Map ScopeId Q) → IsSorted table
    → contains scope (column table) ≡ is_some (Map.lookup scope table)
unfolding contains Map.lookup
contains-column scope [] s = refl
contains-column scope ((j, q) ∷ table) s = ground (
  arith,
  contains-column scope table s.1,
  contains_below scope table,
  Above-trans {j = scope} {k = j} table,
)

contains_each :
    {P : Type 0}
    → (scope j : ScopeId) (table : Rows P)
    → contains scope (map (λ row. j) table) ≡ (equals scope j && has_rows (some table))
unfolding contains
contains_each scope j [] = ground arith
contains_each scope j (row ∷ table) = ground (arith, contains_each scope j table)

unlogged_below :
    {P : Type 0}
    → (scope : ScopeId) (table : Map ScopeId (Rows P)) → Above scope table
    → contains scope (logged table) ≡ false
unfolding logged contains
unlogged_below scope [] a = refl
unlogged_below scope ((j, log) ∷ table) a = ground (
  arith,
  contains-append scope (map (λ row. j) log) (logged table),
  contains_each scope j log,
  unlogged_below scope table a.1,
  a.0,
)

contains-logged :
    {P : Type 0}
    → (scope : ScopeId) (table : Map ScopeId (Rows P)) → IsSorted table
    → contains scope (logged table) ≡ has_rows (Map.lookup scope table)
unfolding logged contains Map.lookup
contains-logged scope [] s = refl
contains-logged scope ((j, log) ∷ table) s = ground (
  arith,
  contains-append scope (map (λ row. j) log) (logged table),
  contains_each scope j log,
  contains-logged scope table s.1,
  unlogged_below scope table,
  unlogged_below j table,
  bytes_ord.same scope j,
  Above-trans {j = scope} {k = j} table,
)

-- The scopes that are listed are those with a row in one of the two tables, each once and in
-- ascending order, where the tables hold each scope once, in ascending order.
pub scopes_lem :
    {P Q : Type 0}
    → (t : Tables P Q) (scope : ScopeId) → IsSorted t.operations
    → IsSorted t.snapshots
    → (contains scope (scopes t)
        ≡ (is_some (Map.lookup scope t.snapshots) || has_rows (Map.lookup scope t.operations)))
      × IsAscending (scopes t)
unfolding scopes
scopes_lem t scope s r =
    let names = column t.snapshots ++ logged t.operations in
    (
      contains-column scope (union names) (union-IsSorted names)
          ∙ contains-union scope names
          ∙ contains-append scope (column t.snapshots) (logged t.operations)
          ∙ ap₂ (λ a b. a || b) (contains-column scope t.snapshots r)
              (contains-logged scope t.operations s),
      IsAscending-column (union names) (union-IsSorted names),
    )
