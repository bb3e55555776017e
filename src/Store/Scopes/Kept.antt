-- ===== src/Store/Scopes/Kept.antt =====
-- What the list of scopes leaves out, and what an append adds to it: crates/kboard-store/src/lib.rs,
-- `scopes`, `restore` and `append`.
use k_board.Common.{
  ℕ, suc, subst, true, false, ◌||◌, List, [], ◌∷◌, ◌++◌, Option, none, some, unwrap_or, ◌≡◌, refl,
  ap, sym, ap₂, ◌∙◌, arith, is_some,
}
use k_board.Common.Order.{bytes_ord, equals}
use k_board.Common.Map
use k_board.Common.Map.{Map, Above, IsSorted}
use k_board.Common.Map.Laws.{lookup-insert, insert-IsSorted}
use k_board.Document.{ScopeId}
use k_board.Snapshot
use k_board.Op.{StampedOp}
use k_board.Snapshot.Laws.{absorb-nil}
use k_board.Ports.{ok}
use k_board.Store.{
  Rows, Tables, Json, rows, restore, recovered, loaded, covered, decode_rows, rows_since,
  load_snapshot, read_rows, through_seq, stored_through, append_rows, next_seq,
}
use k_board.Store.Rows.{Encodes, numbered}
use k_board.Store.Durable.{appended_to}
use k_board.Store.Scopes.{scopes, contains, has_rows, scopes_lem}

-- A scope with a row in neither table.
neither :
    {P Q : Type 0}
    → (stored : Option Q) (log : Option (Rows P)) → (is_some stored || has_rows log) ≡ false
    → (stored ≡ none) × (unwrap_or [] log ≡ [])
neither none none h = (refl, refl)
neither none (some []) h = (refl, refl)
neither none (some (row ∷ table)) h = absurd (cc h)
neither (some q) log h = absurd (cc h)

-- What is not listed is restored as an empty board.
pub unlisted-restore :
    {P Q : Type 0}
    → (json : Json P Q) (t : Tables P Q) (scope : ScopeId) → IsSorted t.operations
    → IsSorted t.snapshots
    → contains scope (scopes t) ≡ false
    → restore json t scope ≡ ok (Snapshot.empty scope)
unfolding restore decode_rows rows_since Snapshot.empty load_snapshot read_rows through_seq
    stored_through
unlisted-restore json t scope s r h =
    let (stored, logged) = neither _ _ (sym (scopes_lem t scope s r).0 ∙ h) in
    ap₂
      (λ found log.
        recovered scope (loaded json found)
          (decode_rows json (rows_since log (unwrap_or 0 (covered found)))))
      stored logged
    ∙ ap ok (absorb-nil (Snapshot.empty scope) (omega arith))

-- What an append leaves of the scope's own log.
has_rows-append :
    {P : Type 0}
    → (table : Rows P) (row : ℕ × P) (more : Rows P) → has_rows (some (table ++ row ∷ more)) ≡ true
has_rows-append [] row more = refl
has_rows-append (r ∷ table) row more = refl

-- After an append the tables are in order as before, and the scope is listed with those that were.
pub scopes-append_rows :
    {P Q : Type 0}
    → (json : Json P Q) (t : Tables P Q) (scope other : ScopeId) (y : StampedOp)
      (ys : List StampedOp) (text : P) (texts : List P)
    → Encodes json (y ∷ ys) (text ∷ texts)
    → IsSorted t.operations
    → IsSorted t.snapshots
    → IsSorted (append_rows json t scope (y ∷ ys)).0.operations
      × (contains other (scopes (append_rows json t scope (y ∷ ys)).0)
          ≡ (equals other scope || contains other (scopes t)))
unfolding numbered
scopes-append_rows json t scope other y ys text texts e s r =
    let table = rows t scope ++ numbered (next_seq t scope) (text ∷ texts) in
    let u = record t { operations = Map.insert scope table t.operations } in
    let sorted = insert-IsSorted scope table t.operations s in
    let read : (is_some (Map.lookup other t.snapshots) || has_rows (Map.lookup other u.operations))
        ≡ (equals other scope || contains other (scopes t)) =
      ground (
        arith,
        lookup-insert other scope table t.operations,
        (scopes_lem t other s r).0,
        has_rows-append (rows t scope) (suc (next_seq t scope), text)
            (numbered (suc (next_seq t scope)) texts),
      ) in
    subst
      (λ v.
        IsSorted v.operations
        × (contains other (scopes v) ≡ (equals other scope || contains other (scopes t))))
      (sym (ap (λ a. a.0) (appended_to json t scope y ys (text ∷ texts) e)))
      (sorted, (scopes_lem u other sorted r).0 ∙ read)
