-- ===== src/Store.antt =====
-- The durable store: crates/kboard-store/src/lib.rs. The two tables are state, and each SQL
-- statement is what it asks for of them. The JSON encoding is serde_json's, and so is the text of its
-- errors: they are arguments. Failures of the database itself are not modelled.
pub mod Rows
pub mod Restore
pub mod Durable
pub mod Scopes
use k_board.Common.{
  ℕ, suc, ◌+◌, ◌-◌, max, Bool, true, false, not, List, [], ◌∷◌, Option, none, some, unwrap_or,
  filter, length, ltb, leb, if◌then◌else◌,
}
use k_board.Common.Order.{bytes_ord, nat_ord, equals}
use k_board.Common.Map
use k_board.Common.Map.{Map}
use k_board.Common.Text.{Str}
use k_board.Document.{ScopeId}
use k_board.Op.{StampedOp}
use k_board.Snapshot
use k_board.Snapshot.{Snapshot}
use k_board.Ports.{Answer, ok, err, PortError, backend, mismatch}

-- The rows of a scope in `operations`, by their primary key, and the row in `snapshots`: the
-- sequence number that it covers, and the encoded snapshot. `P` and `Q` are the texts that operations
-- and snapshots are encoded as.
abbrev pub Rows : Type 0 → Type 0
Rows P = Map ℕ P

pub record Tables (P Q : Type 0) : Type 0 where
  pub operations : Map ScopeId (Rows P)
  pub snapshots : Map ScopeId (ℕ × Q)

-- What serde_json does.
pub record Json (P Q : Type 0) : Type 0 where
  pub encode : StampedOp → Option P
  pub decode : P → Option StampedOp
  pub encode_snapshot : Snapshot → Option Q
  pub decode_snapshot : Q → Option Snapshot
  pub complaint : Str

abbrev pub rows : {P Q : Type 0} → Tables P Q → ScopeId → Rows P
rows t scope = unwrap_or [] (Map.lookup scope t.operations)

-- `SELECT COALESCE(MAX(seq), 0)`.
unfoldable pub max_seq : {P : Type 0} → Rows P → ℕ
max_seq [] = 0
max_seq ((seq, payload) ∷ rest) = max seq (max_seq rest)

unfoldable pub next_seq : {P Q : Type 0} → Tables P Q → ScopeId → ℕ
next_seq t scope = max_seq (rows t scope)

-- The loop of `append`: the rows and the last sequence number.
unfoldable pub insert_rows :
    {P Q : Type 0} → Json P Q → Rows P → ℕ → List StampedOp → Option (Rows P × ℕ)
insert_rows json table seq [] = some (table, seq)
insert_rows json table seq (op ∷ ops) = elim (json.encode op) [
  | none ↦ none
  | some payload ↦ insert_rows json (Map.insert (suc seq) payload table) (suc seq) ops
]

-- The end of `append`: the transaction is committed, or rolled back on an error.
abbrev pub commit :
    {P Q : Type 0} → Json P Q → Tables P Q → ScopeId → Option (Rows P × ℕ) → Tables P Q × Answer ℕ
commit json t scope none = (t, err (backend json.complaint))
commit json t scope (some (table, seq)) =
    (record t { operations = Map.insert scope table t.operations }, ok seq)

unfoldable pub append_rows :
    {P Q : Type 0} → Json P Q → Tables P Q → ScopeId → List StampedOp → Tables P Q × Answer ℕ
append_rows json t scope [] = (t, ok (next_seq t scope))
append_rows json t scope (op ∷ ops) =
    commit json t scope (insert_rows json (rows t scope) (next_seq t scope) (op ∷ ops))

-- The loop of `read_since` over the payloads.
unfoldable pub decode_rows : {P Q : Type 0} → Json P Q → Rows P → Answer (List StampedOp)
decode_rows json [] = ok []
decode_rows json ((seq, payload) ∷ rest) = elim (json.decode payload) [
  | none ↦ err (backend json.complaint)
  | some op ↦ elim (decode_rows json rest) [ ok ops ↦ ok (op ∷ ops) | err e ↦ err e ]
]

-- `WHERE seq > after ORDER BY seq`.
unfoldable pub rows_since : {P : Type 0} → Rows P → ℕ → Rows P
rows_since table after = filter (λ row. ltb after row.0) table

unfoldable pub read_rows :
    {P Q : Type 0} → Json P Q → Tables P Q → ScopeId → ℕ → Answer (List StampedOp)
read_rows json t scope after = decode_rows json (rows_since (rows t scope) after)

unfoldable pub count_rows : {P Q : Type 0} → Tables P Q → ScopeId → ℕ
count_rows t scope = length (rows t scope)

abbrev pub covered : {Q : Type 0} → Option (ℕ × Q) → Option ℕ
covered none = none
covered (some (through, document)) = some through

unfoldable pub stored_through : {P Q : Type 0} → Tables P Q → ScopeId → Option ℕ
stored_through t scope = covered (Map.lookup scope t.snapshots)

unfoldable pub through_seq : {P Q : Type 0} → Tables P Q → ScopeId → ℕ
through_seq t scope = unwrap_or 0 (stored_through t scope)

-- The row of a snapshot, decoded.
abbrev pub parsed : {P Q : Type 0} → Json P Q → Option Snapshot → Answer (Option Snapshot)
parsed json none = err (backend json.complaint)
parsed json (some s) = ok (some s)

abbrev pub loaded : {P Q : Type 0} → Json P Q → Option (ℕ × Q) → Answer (Option Snapshot)
loaded json none = ok none
loaded json (some (through, document)) = parsed json (json.decode_snapshot document)

unfoldable pub load_snapshot :
    {P Q : Type 0} → Json P Q → Tables P Q → ScopeId → Answer (Option Snapshot)
load_snapshot json t scope = loaded json (Map.lookup scope t.snapshots)

-- The end of `store`: the row is inserted or updated.
abbrev pub keep :
    {P Q : Type 0} → Json P Q → Tables P Q → ScopeId → Option Q → Tables P Q × Answer Unit
keep json t scope none = (t, err (backend json.complaint))
keep json t scope (some document) =
    (record t { snapshots = Map.insert scope (next_seq t scope, document) t.snapshots }, ok tt)

unfoldable pub store_snapshot :
    {P Q : Type 0} → Json P Q → Tables P Q → ScopeId → Snapshot → Tables P Q × Answer Unit
store_snapshot json t scope s =
    if equals s.document.scope scope
    then keep json t scope (json.encode_snapshot s)
    else (t, err (backend mismatch))

-- The end of `restore`: the snapshot, or an empty one, absorbs the tail of the log.
abbrev pub recovered :
    ScopeId → Answer (Option Snapshot) → Answer (List StampedOp) → Answer Snapshot
recovered scope (err e) tail = err e
recovered scope (ok stored) (err e) = err e
recovered scope (ok stored) (ok tail) =
    ok (Snapshot.absorb (unwrap_or (Snapshot.empty scope) stored) tail).0

unfoldable pub restore : {P Q : Type 0} → Json P Q → Tables P Q → ScopeId → Answer Snapshot
restore json t scope =
    recovered scope (load_snapshot json t scope) (read_rows json t scope (through_seq t scope))

-- `DELETE FROM operations WHERE scope = ?1 AND seq <= ?2`, where there is a snapshot.
abbrev pub delete_rows : {P Q : Type 0} → Tables P Q → ScopeId → Option ℕ → Tables P Q × ℕ
delete_rows t scope none = (t, 0)
delete_rows t scope (some through) =
    let left = rows_since (rows t scope) through in
    (
      record t { operations = Map.insert scope left t.operations },
      length (rows t scope) - length left,
    )

-- `truncate_absorbed`: the tables, and how many rows were deleted.
unfoldable pub truncate_absorbed : {P Q : Type 0} → Tables P Q → ScopeId → Tables P Q × ℕ
truncate_absorbed t scope = delete_rows t scope (stored_through t scope)
