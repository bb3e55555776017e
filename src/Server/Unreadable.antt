-- ===== src/Server/Unreadable.antt =====
-- A board that the store cannot restore: crates/kboard-server/src/main.rs, `with_room` and `session`.
use k_board.Common.{
  if◌then◌else◌, ℕ, ◌+◌, ◌^◌, ◌≤◌, ◌<◌, true, List, ◌∷◌, none, some, length, ◌≡◌, refl, ap, sym,
  subst, ◌∙◌, arith,
}
use k_board.Common.Order.{bytes_ord, equals_self}
use k_board.Common.Map
use k_board.Common.Map.Laws.{lookup-insert}
use k_board.Document
use k_board.Document.{ScopeId, total_count}
use k_board.Op.{StampedOp}
use k_board.Op.Replay.{replay-scope}
use k_board.Snapshot
use k_board.Snapshot.{Snapshot, absorb, materialize}
use k_board.Snapshot.Laws.{absorbed-lt}
use k_board.Ports
use k_board.Ports.{PortError}
use k_board.Store
use k_board.Store.{Tables, Json, append_rows, store_snapshot, restore}
use k_board.Store.Rows.{Encodes}
use k_board.Store.Restore.{SnapshotRoundTrips}
use k_board.Store.Durable.{appended_to, stored_to, restore-store_snapshot}
use k_board.Server.Limits.{max_rooms, max_ops_per_frame}
use k_board.Server.Room
use k_board.Server.Room.{Room, Accepted, accept, snapshot_due, snapshot_every, subscribe}
use k_board.Server.State.{with_existing, acted, with_room, opened}
use k_board.Server.Session.{
  Process, Wire, join, write_batch, settled, appended, snapshotted, Written,
}

module _ {P Q : Type 0} (json : Json P Q) (wire : Wire) (scope : ScopeId) where
  abbrev new_room : ℕ → Room
  new_room now = subscribe (Room.new scope now) now

  -- A connection to a board that cannot be restored opens an empty room.
  join_unreadable :
      (p : Process P Q) (now : ℕ) (e : PortError)
      → restore json p.state.store scope ≡ Ports.err e
      → Map.lookup scope p.state.rooms ≡ none
      → length p.state.rooms < max_rooms
      → let s = (join json wire p scope now).0.state in
        (Map.lookup scope s.rooms ≡ some (new_room now)) × (s.store ≡ p.state.store)
  unfolding join with_room with_existing
  join_unreadable p now e broken absent few =
      let rooms = p.state.rooms in
      let room = opened scope (restore json p.state.store scope) now in
      let same : room ≡ Room.new scope now = ap (λ a. opened scope a now) broken in
      ground (
        arith,
        absent,
        few,
        same,
        equals_self scope,
        lookup-insert scope scope room rooms,
        lookup-insert scope scope (subscribe room now) (Map.insert scope room rooms),
      )

  module _ (y : StampedOp) (ys : List StampedOp) (room : Room) (now : ℕ)
      (blank : room.state ≡ Snapshot.empty scope) (unsaved : room.since_snapshot ≡ 0)
      (many : snapshot_every ≤ length (y ∷ ys)) (fits : length (y ∷ ys) ≤ max_ops_per_frame)
      (texts : List P) (encodes : Encodes json (y ∷ ys) texts)
      (kept : SnapshotRoundTrips json (materialize scope (y ∷ ys))) where
    no_elements : total_count room.state.document ≡ 0
    unfolding Snapshot.empty Document.new total_count
    no_elements = ap (λ s. total_count s.document) blank

    -- The batch is accepted, and a snapshot is due.
    first_batch :
        let (next, result) = accept room (y ∷ ys) now in
        (result ≡ Accepted.ok (absorb room.state (y ∷ ys)).1)
        × (next.state ≡ (absorb room.state (y ∷ ys)).0)
        × (snapshot_due next ≡ true)
    unfolding accept snapshot_due
    first_batch = ground (arith, no_elements, unsaved, many, fits)

    materialized : (accept room (y ∷ ys) now).0.state ≡ materialize scope (y ∷ ys)
    unfolding materialize
    materialized = first_batch.1 ∙ ap (λ s. (absorb s (y ∷ ys)).0) blank

    own_scope : (materialize scope (y ∷ ys)).document.scope ≡ scope
    unfolding materialize absorb Snapshot.empty Document.new
    own_scope = replay-scope (Document.new scope) (y ∷ ys)

    small_count : (materialize scope (y ∷ ys)).absorbed < 2 ^ 64
    unfolding materialize
    small_count = absorbed-lt (Snapshot.empty scope) (y ∷ ys)

    restore-write_batch :
        (t : Tables P Q)
        → restore json (write_batch json scope (y ∷ ys) now room t).1 scope
          ≡ Ports.ok (materialize scope (y ∷ ys))
    unfolding write_batch
    restore-write_batch t =
        let next = (accept room (y ∷ ys) now).0 in
        let (result, state, due) = first_batch in
        let n = Store.next_seq t scope + length texts in
        let saves : SnapshotRoundTrips json next.state =
          subst (SnapshotRoundTrips json) (sym materialized) kept in
        let u = (append_rows json t scope (y ∷ ys)).0 in
        let scoped = ap (λ s. s.document.scope) materialized ∙ own_scope in
        let accepted : accept room (y ∷ ys) now
            ≡ (next, Accepted.ok (absorb room.state (y ∷ ys)).1) =
          λ i. (next, result i) in
        let logged : append_rows json t scope (y ∷ ys) ≡ (u, Ports.ok n) =
          λ i. (u, (appended_to json t scope y ys texts encodes i).1) in
        let saved : store_snapshot json u scope next.state
            ≡ ((store_snapshot json u scope next.state).0, Ports.ok tt) =
          λ i. (
            (store_snapshot json u scope next.state).0,
            (stored_to json u scope next.state saves scoped i).1,
          ) in
        ap (λ r. restore json (settled json scope (y ∷ ys) t r).1 scope) accepted
        ∙ ap (λ r. restore json (appended json scope next r).1 scope) logged
        ∙ ap
            (λ b.
              restore json
                (if b
                  then snapshotted next (store_snapshot json u scope next.state)
                  else (next, u, Written.ok)).1
                scope)
            due
        ∙ ap (λ r. restore json (snapshotted next r).1 scope) saved
        ∙ restore-store_snapshot json u scope next.state saves scoped
            (subst (λ s. s.absorbed < 2 ^ 64) (sym materialized) small_count)
        ∙ ap Ports.ok materialized

  new_room_blank :
      (now : ℕ)
      → ((new_room now).state ≡ Snapshot.empty scope) × ((new_room now).since_snapshot ≡ 0)
  unfolding subscribe Room.new Room.restored
  new_room_blank now = (refl, refl)

  -- A board that the store cannot restore is lost: where a client joins it and sends one batch that is
  -- large enough for a snapshot and is accepted, the store restores the snapshot of that batch
  -- alone. The operations must be encoded, and the snapshot encoded and decoded as it was.
  pub join-write_batch :
      (p : Process P Q) (now later : ℕ) (e : PortError) (y : StampedOp) (ys : List StampedOp)
      → restore json p.state.store scope ≡ Ports.err e
      → Map.lookup scope p.state.rooms ≡ none
      → length p.state.rooms < max_rooms
      → snapshot_every ≤ length (y ∷ ys)
      → length (y ∷ ys) ≤ max_ops_per_frame
      → (texts : List P) → Encodes json (y ∷ ys) texts
      → SnapshotRoundTrips json (materialize scope (y ∷ ys))
      → let s = (join json wire p scope now).0.state in
        restore json (with_existing s scope (write_batch json scope (y ∷ ys) later)).0.store scope
        ≡ Ports.ok (materialize scope (y ∷ ys))
  unfolding with_existing
  join-write_batch p now later e y ys broken absent few many fits texts encodes kept =
      let s = (join json wire p scope now).0.state in
      let (found, _) = join_unreadable p now e broken absent few in
      let (blank, unsaved) = new_room_blank now in
      ap (λ r. restore json (acted s scope (write_batch json scope (y ∷ ys) later) r).0.store scope)
        found
      ∙ restore-write_batch y ys (new_room now) later blank unsaved many fits texts encodes kept
          s.store
