-- ===== src/Store/Durable.antt =====
-- What stays restorable while operations are appended and snapshots stored:
-- crates/kboard-store/src/lib.rs, `append`, `store` and `restore`.
use k_board.Common.{
  ℕ, ◌+◌, ◌≤◌, ◌<◌, ◌^◌, false, List, [], ◌∷◌, ◌++◌, Option, some, unwrap_or, length, if◌then◌else◌,
  ◌≡◌, refl, ap, ap₂, sym, subst, ◌∙◌, arith, All, Option-cases, ◌⊎◌, inl, inr,
}
use k_board.Common.Order.{bytes_ord, equals, equals_self}
use k_board.Common.Map
use k_board.Common.Map.Laws.{lookup-insert}
use k_board.Document
use k_board.Document.{ScopeId}
use k_board.Op.{StampedOp}
use k_board.Op.Replay.{replay-scope}
use k_board.Snapshot
use k_board.Snapshot.{Snapshot, absorb}
use k_board.Snapshot.Laws.{absorb-append, absorb-nil, absorbed-lt}
use k_board.Ports.{Answer, PortError, ok, err, backend, mismatch}
use k_board.Store.{
  Rows, Tables, Json, rows, max_seq, next_seq, append_rows, decode_rows, rows_since, read_rows,
  stored_through, through_seq, load_snapshot, store_snapshot, restore, commit, keep, parsed, loaded,
  recovered, covered,
}
use k_board.Store.Rows.{RoundTrips, Encodes, numbered, insert_rows_lem, decode-numbered, since-new}
use k_board.Store.Restore.{SnapshotRoundTrips, rows-insert}

-- A scope is restored as a snapshot of it, and no snapshot covers more than the log holds.
pub record Backs {P Q : Type 0} (json : Json P Q) (t : Tables P Q) (scope : ScopeId) (s : Snapshot)
    : Type 0 where
  pub restores : restore json t scope ≡ ok s
  pub scoped : s.document.scope ≡ scope
  pub counted : s.absorbed < 2 ^ 64
  pub within : through_seq t scope ≤ next_seq t scope

AtMost-weaken :
    {P : Type 0}
    → (m n : ℕ) (table : Rows P) → m ≤ n
    → All (λ row. row.0 ≤ m) table
    → All (λ row. row.0 ≤ n) table
AtMost-weaken m n [] le h = tt
AtMost-weaken m n (row ∷ table) le h = (omega (arith, h.0), AtMost-weaken m n table le h.1)

AtMost-max_seq : {P : Type 0} → (table : Rows P) → All (λ row. row.0 ≤ max_seq table) table
unfolding max_seq
AtMost-max_seq [] = tt
AtMost-max_seq ((seq, payload) ∷ rest) =
    (omega arith, AtMost-weaken (max_seq rest) _ rest (omega arith) (AtMost-max_seq rest))

rows_since-append :
    {P : Type 0} → (a b : Rows P) (n : ℕ) → rows_since (a ++ b) n ≡ rows_since a n ++ rows_since b n
unfolding rows_since
rows_since-append [] b n = refl
rows_since-append (row ∷ a) b n = ground (arith, rows_since-append a b n)

since_none :
    {P : Type 0} → (n : ℕ) (table : Rows P) → All (λ row. row.0 ≤ n) table → rows_since table n ≡ []
unfolding rows_since
since_none n [] h = refl
since_none n (row ∷ table) h = ground (arith, since_none n table h.1, h.0)

max_seq-append : {P : Type 0} → (a b : Rows P) → max_seq a ≤ max_seq (a ++ b)
unfolding max_seq
max_seq-append [] b = omega arith
max_seq-append (row ∷ a) b = omega (arith, max_seq-append a b)

Answer-cases :
    {A : Type 0} → (a : Answer A) → ((x : A) × (a ≡ ok x)) ⊎ ((e : PortError) × (a ≡ err e))
Answer-cases (ok x) = inl (x, refl)
Answer-cases (err e) = inr (e, refl)

decode_rows-append :
    {P Q : Type 0}
    → (json : Json P Q) (a b : Rows P) (xs ys : List StampedOp) → decode_rows json a ≡ ok xs
    → decode_rows json b ≡ ok ys
    → decode_rows json (a ++ b) ≡ ok (xs ++ ys)
unfolding decode_rows
decode_rows-append json [] b xs ys h k = let e : [] ≡ xs = cc h in k ∙ ap (λ zs. ok (zs ++ ys)) e
decode_rows-append json ((seq, payload) ∷ a) b xs ys h k =
    elim (Option-cases (json.decode payload)) [
      | inl broken ↦ ground (arith, broken, h)
      | inr (op, good) ↦ elim (Answer-cases (decode_rows json a)) [
        | inl (ops, read) ↦ ground (arith, good, read, h, decode_rows-append json a b ops ys read k)
        | inr (e, failed) ↦ ground (arith, good, failed, h)
      ]
    ]

recovered_inv :
    (scope : ScopeId) (stored : Answer (Option Snapshot)) (tail : Answer (List StampedOp))
    (s : Snapshot)
    → recovered scope stored tail ≡ ok s
    → (kept : Option Snapshot) × (ops : List StampedOp) × (stored ≡ ok kept)
      × (tail ≡ ok ops)
      × ((absorb (unwrap_or (Snapshot.empty scope) kept) ops).0 ≡ s)
recovered_inv scope (err e) tail s h = absurd (cc h)
recovered_inv scope (ok kept) (err e) s h = absurd (cc h)
recovered_inv scope (ok kept) (ok ops) s h = (kept, ops, refl, refl, cc h)

-- A scope whose rows and whose snapshot are the same.
same_rows-Backs :
    {P Q : Type 0}
    → (json : Json P Q) (t u : Tables P Q) (scope : ScopeId) (s : Snapshot)
    → rows u scope ≡ rows t scope
    → Map.lookup scope u.snapshots ≡ Map.lookup scope t.snapshots
    → Backs json t scope s
    → Backs json u scope s
unfolding restore load_snapshot read_rows through_seq stored_through next_seq
same_rows-Backs json t u scope s same row b = record {
  restores =
      ap₂
        (λ table found.
          recovered scope (loaded json found)
            (decode_rows json (rows_since table (unwrap_or 0 (covered found)))))
        same row
      ∙ b.restores;
  scoped = b.scoped;
  counted = b.counted;
  within = omega (arith, b.within, ap max_seq same, ap (λ found. unwrap_or 0 (covered found)) row);
}

module _ {P Q : Type 0} (json : Json P Q) where
  -- The tables after operations are appended.
  pub appended_to :
      (t : Tables P Q) (scope : ScopeId) (y : StampedOp) (ys : List StampedOp) (texts : List P)
      → Encodes json (y ∷ ys) texts
      → append_rows json t scope (y ∷ ys) ≡ (
        record t {
          operations =
              Map.insert scope (rows t scope ++ numbered (next_seq t scope) texts) t.operations;
        },
        ok (next_seq t scope + length texts),
      )
  unfolding append_rows next_seq
  appended_to t scope y ys texts e = ap (commit json t scope) (
      insert_rows_lem json (max_seq (rows t scope)) (rows t scope) (y ∷ ys) texts e
        (AtMost-max_seq (rows t scope)))

  -- What is appended to a log is absorbed by the snapshot that is restored of it.
  pub append-Backs :
      (t : Tables P Q) (scope : ScopeId) (s : Snapshot) (y : StampedOp) (ys : List StampedOp)
      → RoundTrips json (y ∷ ys)
      → Backs json t scope s
      → Backs json (append_rows json t scope (y ∷ ys)).0 scope (absorb s (y ∷ ys)).0
  unfolding restore load_snapshot read_rows through_seq stored_through next_seq absorb
  append-Backs t scope s y ys (texts, encodes, decodes) b =
      let n = max_seq (rows t scope) in
      let new_rows = numbered n texts in
      let through = unwrap_or 0 (covered (Map.lookup scope t.snapshots)) in
      let found = loaded json (Map.lookup scope t.snapshots) in
      let (stored, ops, load, read, whole) =
        recovered_inv scope found (decode_rows json (rows_since (rows t scope) through)) s
          b.restores in
      let old = unwrap_or (Snapshot.empty scope) stored in
      let table = rows-insert t scope (rows t scope ++ new_rows) in
      let tail : decode_rows json (rows_since (rows t scope ++ new_rows) through)
          ≡ ok (ops ++ y ∷ ys) =
        ap (decode_rows json) (
          rows_since-append (rows t scope) new_rows through
          ∙ ap (λ r. rows_since (rows t scope) through ++ r) (since-new through n texts b.within))
        ∙ decode_rows-append json (rows_since (rows t scope) through) new_rows ops (y ∷ ys) read
            (decode-numbered json n texts (y ∷ ys) decodes) in
      let grown = max_seq-append (rows t scope) new_rows in
      subst (λ u. Backs json u scope (absorb s (y ∷ ys)).0)
        (sym (ap (λ r. r.0) (appended_to t scope y ys texts encodes)))
        (record {
          restores =
              ap (λ r. recovered scope found (decode_rows json (rows_since r through))) table
              ∙ ap₂ (recovered scope) load tail
              ∙ ap ok
                  (sym (absorb-append old ops (y ∷ ys)) ∙ ap (λ z. (absorb z (y ∷ ys)).0) whole);
          scoped = replay-scope s.document (y ∷ ys) ∙ b.scoped;
          counted = absorbed-lt s (y ∷ ys);
          within = omega (arith, b.within, grown, ap max_seq table);
        })

  pub append_elsewhere :
      (t : Tables P Q) (scope other : ScopeId) (s : Snapshot) (y : StampedOp) (ys : List StampedOp)
      → RoundTrips json (y ∷ ys)
      → equals other scope ≡ false
      → Backs json t other s
      → Backs json (append_rows json t scope (y ∷ ys)).0 other s
  append_elsewhere t scope other s y ys (texts, encodes, decodes) apart b =
      subst (λ u. Backs json u other s)
        (sym (ap (λ r. r.0) (appended_to t scope y ys texts encodes)))
        (same_rows-Backs json t _ other s
          (ground (
            arith,
            apart,
            lookup-insert other scope (rows t scope ++ numbered (next_seq t scope) texts)
                t.operations,
          ))
          refl b)

module _ {P Q : Type 0} (json : Json P Q) where
  pub stored_to :
      (t : Tables P Q) (scope : ScopeId) (s : Snapshot) (kept : SnapshotRoundTrips json s)
      → s.document.scope ≡ scope
      → store_snapshot json t scope s
        ≡ (record t { snapshots = Map.insert scope (next_seq t scope, kept.0) t.snapshots }, ok tt)
  unfolding store_snapshot
  stored_to t scope s kept h =
      ap
        (λ b. if b then keep json t scope (json.encode_snapshot s) else (t, err (backend mismatch)))
        (ap (λ x. equals x scope) h ∙ equals_self scope)
      ∙ ap (keep json t scope) kept.1

  -- What a snapshot that is stored leaves of its scope, whatever was there before.
  stored_scope :
      (t : Tables P Q) (scope : ScopeId) (s : Snapshot) (kept : SnapshotRoundTrips json s)
      → s.document.scope ≡ scope
      → let u = (store_snapshot json t scope s).0 in
        (rows u scope ≡ rows t scope)
        × (Map.lookup scope u.snapshots ≡ some (max_seq (rows t scope), kept.0))
  unfolding next_seq
  stored_scope t scope s kept own =
      let stored = stored_to t scope s kept own in
      let n = max_seq (rows t scope) in
      (
        ap (λ r. rows r.0 scope) stored,
        ap (λ r. Map.lookup scope r.0.snapshots) stored
            ∙ ground (arith, lookup-insert scope scope (n, kept.0) t.snapshots, equals_self scope),
      )

  -- A snapshot that is stored is what is restored, whether or not anything could be restored before.
  pub restore-store_snapshot :
      (t : Tables P Q) (scope : ScopeId) (s : Snapshot) (kept : SnapshotRoundTrips json s)
      → s.document.scope ≡ scope
      → s.absorbed < 2 ^ 64
      → restore json (store_snapshot json t scope s).0 scope ≡ ok s
  unfolding restore load_snapshot read_rows through_seq stored_through decode_rows
  restore-store_snapshot t scope s kept own small =
      let u = (store_snapshot json t scope s).0 in
      let n = max_seq (rows t scope) in
      let (table, row) = stored_scope t scope s kept own in
      let nothing : rows_since (rows u scope) n ≡ [] =
        ap (λ r. rows_since r n) table
        ∙ since_none n (rows t scope) (AtMost-max_seq (rows t scope)) in
      ap
        (λ found.
          recovered scope (loaded json found)
            (decode_rows json (rows_since (rows u scope) (unwrap_or 0 (covered found)))))
        row
      ∙ ap₂ (recovered scope) (ap (parsed json) kept.2) (ap (decode_rows json) nothing)
      ∙ ap ok (absorb-nil s small)

  pub store-Backs :
      (t : Tables P Q) (scope : ScopeId) (s : Snapshot) (kept : SnapshotRoundTrips json s)
      → Backs json t scope s
      → Backs json (store_snapshot json t scope s).0 scope s
  unfolding through_seq stored_through next_seq
  store-Backs t scope s kept b =
      let (table, row) = stored_scope t scope s kept b.scoped in
      record {
        restores = restore-store_snapshot t scope s kept b.scoped b.counted;
        scoped = b.scoped;
        counted = b.counted;
        within = omega (arith, ap max_seq table, ap (λ found. unwrap_or 0 (covered found)) row);
      }

  pub store_elsewhere :
      (t : Tables P Q) (scope other : ScopeId) (s r : Snapshot) (kept : SnapshotRoundTrips json s)
      → s.document.scope ≡ scope
      → equals other scope ≡ false
      → Backs json t other r
      → Backs json (store_snapshot json t scope s).0 other r
  store_elsewhere t scope other s r kept own apart b =
      subst (λ u. Backs json u other r) (sym (ap (λ x. x.0) (stored_to t scope s kept own)))
        (same_rows-Backs json t _ other r refl
          (ground (arith, apart, lookup-insert other scope (next_seq t scope, kept.0) t.snapshots))
          b)

-- A store without rows.
abbrev pub no_tables : {P Q : Type 0} → Tables P Q
no_tables = record { operations = []; snapshots = [] }

pub no_tables-Backs :
    {P Q : Type 0}
    → (json : Json P Q) (scope : ScopeId) → Backs json no_tables scope (Snapshot.empty scope)
unfolding restore load_snapshot read_rows through_seq stored_through next_seq decode_rows rows_since
    Map.lookup max_seq Snapshot.empty Document.new
no_tables-Backs json scope = record {
  restores = ap ok (absorb-nil (Snapshot.empty scope) (omega arith));
  scoped = refl;
  counted = omega arith;
  within = omega arith;
}
