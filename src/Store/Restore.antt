-- ===== src/Store/Restore.antt =====
-- Restoring a board: crates/kboard-store/src/lib.rs, `restore`, `append`, `store` and
-- `truncate_absorbed`.
use mathlib.Core.List.{append-nil}
use k_board.Common.{
  ℕ, ◌+◌, ◌≤◌, List, [], ◌∷◌, ◌++◌, some, unwrap_or, length, if◌then◌else◌, ◌≡◌, refl, ap, ap₂, sym,
  ◌∙◌, arith,
}
use k_board.Common.Order.{bytes_ord, equals, equals_self}
use k_board.Common.Map
use k_board.Common.Map.Laws.{lookup-insert}
use k_board.Document
use k_board.Document.{ScopeId}
use k_board.Op.{StampedOp}
use k_board.Op.Replay.{replay-scope}
use k_board.Snapshot
use k_board.Snapshot.{Snapshot, absorb, materialize}
use k_board.Snapshot.Laws.{absorb-append, absorb-nil, absorbed-lt}
use k_board.Ports.{ok, err, backend, mismatch}
use k_board.Store.{
  Rows, Tables, Json, rows, max_seq, next_seq, append_rows, insert_rows, decode_rows, rows_since,
  read_rows, stored_through, through_seq, load_snapshot, store_snapshot, restore, truncate_absorbed,
  commit, keep, parsed, loaded, recovered, covered, delete_rows,
}
use k_board.Store.Rows.{
  RoundTrips, Encodes, length-texts, numbered, insert_rows_lem, max_seq-numbered, decode-numbered,
  since-old, since-new, numbered-AtMost,
}

-- A snapshot that is encoded, and what it is encoded as decoded to it again.
abbrev pub SnapshotRoundTrips : {P Q : Type 0} → Json P Q → Snapshot → Type 0
SnapshotRoundTrips {P} {Q} json s =
    (text : Q) × (json.encode_snapshot s ≡ some text) × (json.decode_snapshot text ≡ some s)

pub rows-insert :
    {P Q : Type 0} (t : Tables P Q) (scope : ScopeId) (table : Rows P)
    → rows (record t { operations = Map.insert scope table t.operations }) scope ≡ table
rows-insert t scope table =
    ground (arith, lookup-insert scope scope table t.operations, equals_self scope)

module _ {P Q : Type 0} (json : Json P Q) where
  max_seq_of : (texts : List P) → max_seq (numbered 0 texts) ≡ length texts
  max_seq_of texts = omega (arith, max_seq-numbered 0 texts)

  -- The tables after operations are appended to a log of rows numbered from 1.
  appended_rows :
      (t : Tables P Q) (scope : ScopeId) (xs : List P) (ys : List StampedOp) (texts : List P)
      → Encodes json ys texts
      → rows t scope ≡ numbered 0 xs
      → (rows (append_rows json t scope ys).0 scope ≡ numbered 0 xs ++ numbered (length xs) texts)
        × ((append_rows json t scope ys).0.snapshots ≡ t.snapshots)
  unfolding append_rows next_seq numbered
  appended_rows t scope xs [] [] e h = (h ∙ sym (append-nil (numbered 0 xs)), refl)
  appended_rows t scope xs [] (text ∷ texts) e h = absurd (cc e)
  appended_rows t scope xs (y ∷ ys) texts e h =
      let inserted : insert_rows json (rows t scope) (max_seq (rows t scope)) (y ∷ ys)
          ≡ some (numbered 0 xs ++ numbered (length xs) texts, length xs + length texts) =
        ap (λ table. insert_rows json table (max_seq table) (y ∷ ys)) h
        ∙ ap (λ n. insert_rows json (numbered 0 xs) n (y ∷ ys)) (max_seq_of xs)
        ∙ insert_rows_lem json (length xs) (numbered 0 xs) (y ∷ ys) texts e
            (numbered-AtMost (length xs) 0 xs (omega arith)) in
      let done = ap (commit json t scope) inserted in
      (ap (λ r. rows r.0 scope) done ∙ rows-insert t scope _, ap (λ r. r.0.snapshots) done)

  stored_row :
      (t : Tables P Q) (scope : ScopeId) (s : Snapshot) (kept : SnapshotRoundTrips json s)
      → s.document.scope ≡ scope
      → ((store_snapshot json t scope s).0.operations ≡ t.operations)
        × (Map.lookup scope (store_snapshot json t scope s).0.snapshots
            ≡ some (max_seq (rows t scope), kept.0))
  unfolding store_snapshot next_seq
  stored_row t scope s kept h =
      let stored : store_snapshot json t scope s ≡ keep json t scope (some kept.0) =
        ap
          (λ b.
            if b then keep json t scope (json.encode_snapshot s) else (t, err (backend mismatch)))
          (ap (λ x. equals x scope) h ∙ equals_self scope)
        ∙ ap (keep json t scope) kept.1 in
      (
        ap (λ r. r.0.operations) stored,
        ap (λ r. Map.lookup scope r.0.snapshots) stored
            ∙ ground (
              arith,
              lookup-insert scope scope (max_seq (rows t scope), kept.0) t.snapshots,
              equals_self scope,
            ),
      )

  -- What is restored from the row of a snapshot and the rows after it.
  restored :
      (t : Tables P Q) (scope : ScopeId) (through : ℕ) (s : Snapshot) (n : ℕ)
      (tail : List StampedOp) (kept : SnapshotRoundTrips json s) (trips : RoundTrips json tail)
      → Map.lookup scope t.snapshots ≡ some (through, kept.0)
      → rows_since (rows t scope) through ≡ numbered n trips.0
      → restore json t scope ≡ ok (absorb s tail).0
  unfolding restore load_snapshot read_rows through_seq stored_through
  restored t scope through s n tail kept trips row since =
      ap₂ (recovered scope) (ap (loaded json) row ∙ ap (parsed json) kept.2) (
        ap (λ r. decode_rows json (rows_since (rows t scope) (unwrap_or 0 (covered r)))) row
        ∙ ap (decode_rows json) since
        ∙ decode-numbered json n trips.0 tail trips.2)

  materialize-scope :
      (scope : ScopeId) (ops : List StampedOp) → (materialize scope ops).document.scope ≡ scope
  unfolding materialize absorb Snapshot.empty Document.new
  materialize-scope scope ops = replay-scope (Document.new scope) ops

  materialize-append :
      (scope : ScopeId) (xs ys : List StampedOp)
      → (absorb (materialize scope xs) ys).0 ≡ materialize scope (xs ++ ys)
  unfolding materialize
  materialize-append scope xs ys = absorb-append (Snapshot.empty scope) xs ys

  materialize-nil :
      (scope : ScopeId) (xs : List StampedOp)
      → (absorb (materialize scope xs) []).0 ≡ materialize scope xs
  unfolding materialize
  materialize-nil scope xs =
      absorb-nil (absorb (Snapshot.empty scope) xs).0 (absorbed-lt (Snapshot.empty scope) xs)

  -- The tables after a log is appended to an empty one and its snapshot is stored.
  abbrev pub saved : Tables P Q → ScopeId → List StampedOp → Tables P Q
  saved t scope xs =
      (store_snapshot json (append_rows json t scope xs).0 scope (materialize scope xs)).0

  saved_tables :
      (t : Tables P Q) (scope : ScopeId) (xs : List StampedOp) (trips : RoundTrips json xs)
      (kept : SnapshotRoundTrips json (materialize scope xs))
      → rows t scope ≡ []
      → (rows (saved t scope xs) scope ≡ numbered 0 trips.0)
        × (Map.lookup scope (saved t scope xs).snapshots ≡ some (length trips.0, kept.0))
  unfolding numbered
  saved_tables t scope xs trips kept h =
      let t1 = (append_rows json t scope xs).0 in
      let filled : rows t1 scope ≡ numbered 0 trips.0 =
        (appended_rows t scope [] xs trips.0 trips.1 h).0 in
      let row = stored_row t1 scope (materialize scope xs) kept (materialize-scope scope xs) in
      (
        ap (λ o. unwrap_or [] (Map.lookup scope o)) row.0 ∙ filled,
        row.1 ∙ ap (λ n. some (n, kept.0)) (ap max_seq filled ∙ max_seq_of trips.0),
      )

  -- A board survives its process: where a log was appended to an empty one, its snapshot stored, and
  -- more appended, what is restored is the snapshot of all that was appended. The operations and the
  -- snapshot that is stored must be encoded, and decoded as they were.
  pub restore-append :
      (t : Tables P Q) (scope : ScopeId) (xs ys : List StampedOp)
      → RoundTrips json xs
      → RoundTrips json ys
      → SnapshotRoundTrips json (materialize scope xs)
      → rows t scope ≡ []
      → restore json (append_rows json (saved t scope xs) scope ys).0 scope
        ≡ ok (materialize scope (xs ++ ys))
  restore-append t scope xs ys before later kept h =
      let n = length before.0 in
      let (filled, row) = saved_tables t scope xs before kept h in
      let (all_rows, same) =
        appended_rows (saved t scope xs) scope before.0 ys later.0 later.1 filled in
      restored _ scope n (materialize scope xs) n ys kept later (ap (Map.lookup scope) same ∙ row) (
        ap (λ r. rows_since r n) all_rows
        ∙ since-old n 0 before.0 (numbered n later.0) (omega arith)
        ∙ since-new n n later.0 (omega arith))
      ∙ ap ok (materialize-append scope xs ys)

  truncated_tables :
      (t : Tables P Q) (scope : ScopeId) (xs : List StampedOp) (trips : RoundTrips json xs)
      (kept : SnapshotRoundTrips json (materialize scope xs))
      → rows t scope ≡ []
      → (rows (truncate_absorbed (saved t scope xs) scope).0 scope ≡ [])
        × ((truncate_absorbed (saved t scope xs) scope).0.snapshots ≡ (saved t scope xs).snapshots)
  unfolding truncate_absorbed stored_through rows_since
  truncated_tables t scope xs trips kept h =
      let n = length trips.0 in
      let (filled, row) = saved_tables t scope xs trips kept h in
      let done = ap (λ r. delete_rows (saved t scope xs) scope (covered r)) row in
      (
        ap (λ r. rows r.0 scope) done
            ∙ rows-insert (saved t scope xs) scope _
            ∙ ap (λ r. rows_since r n) filled
            ∙ ap (λ r. rows_since r n) (sym (append-nil (numbered 0 trips.0)))
            ∙ since-old n 0 trips.0 [] (omega arith),
        ap (λ r. r.0.snapshots) done,
      )

  -- Where a log was appended to an empty one, its snapshot stored and the log truncated, operations
  -- that are appended afterwards, no more than there were before, are lost: what is restored is the
  -- snapshot without them. The operations and the snapshot must be encoded, and
  -- decoded as they were.
  pub restore-truncate_absorbed :
      (t : Tables P Q) (scope : ScopeId) (xs ys : List StampedOp)
      → RoundTrips json xs
      → RoundTrips json ys
      → SnapshotRoundTrips json (materialize scope xs)
      → rows t scope ≡ []
      → length ys ≤ length xs
      → restore json
          (append_rows json (truncate_absorbed (saved t scope xs) scope).0 scope ys).0
          scope
        ≡ ok (materialize scope xs)
  unfolding numbered rows_since
  restore-truncate_absorbed t scope xs ys before later kept h few =
      let n = length before.0 in
      let (filled, row) = saved_tables t scope xs before kept h in
      let (none_left, same) = truncated_tables t scope xs before kept h in
      let t2 = (truncate_absorbed (saved t scope xs) scope).0 in
      let (fresh, kept_row) = appended_rows t2 scope [] ys later.0 later.1 none_left in
      let fits : length later.0 ≤ n = omega (
        arith,
        few,
        length-texts json xs before.0 before.1,
        length-texts json ys later.0 later.1,
      ) in
      restored _ scope n (materialize scope xs) 0 [] kept ([], refl, refl)
        (ap (Map.lookup scope) (kept_row ∙ same) ∙ row)
        (ap (λ r. rows_since r n) fresh
          ∙ ap (λ r. rows_since r n) (sym (append-nil (numbered 0 later.0)))
          ∙ since-old n 0 later.0 [] (omega (arith, fits)))
      ∙ ap ok (materialize-nil scope xs)
