-- ===== src/Server/Batch.antt =====
-- A batch of a client, from the room to the store: crates/kboard-server/src/main.rs, `session`.
use k_board.Common.{
  ℕ, length, ◌+◌, false, List, ◌∷◌, ◌≡◌, ◌≢◌, ap, sym, subst, ◌∙◌, arith, Bool-cases, inl, inr,
}
use k_board.Common.Order.{bytes_ord, equals}
use k_board.Document.{ScopeId}
use k_board.Op.{StampedOp}
use k_board.Snapshot.{Snapshot, absorb}
use k_board.Ports
use k_board.Store
use k_board.Store.{Tables, Json, append_rows, store_snapshot}
use k_board.Store.Rows.{RoundTrips}
use k_board.Store.Restore.{SnapshotRoundTrips}
use k_board.Store.Durable.{
  Backs, append-Backs, append_elsewhere, appended_to, store-Backs, store_elsewhere, stored_to,
}
use k_board.Server.Room.{Room, not_durable, Accepted, accept, snapshot_due, mark_snapshotted}
use k_board.Server.Room.Laws.{accept_step}
use k_board.Server.Session.{Written, write_batch, settled, appended, snapshotted}

accept_durable :
    (r : Room) (batch : List StampedOp) (now : ℕ)
    → (accept r batch now).1 ≢ Accepted.err not_durable
unfolding accept
accept_durable r batch now h = ground (arith, h)

module _ {P Q : Type 0} (json : Json P Q) (scope : ScopeId) (y : StampedOp) (ys : List StampedOp)
    (t : Tables P Q) (room : Room) (trips : RoundTrips json (y ∷ ys))
    (saves : SnapshotRoundTrips json (absorb room.state (y ∷ ys)).0)
    (backs : Backs json t scope room.state) where
  -- What a batch leaves: the store backs the room, and every other scope as before; the room absorbed
  -- the batch where it was written, and the store never failed.
  pub record IsKept (w : Room × Tables P Q × Written) : Type 0 where
    pub backed : Backs json w.1 scope w.0.state
    pub others :
        (other : ScopeId) (r : Snapshot)
        → equals other scope ≡ false
        → Backs json t other r
        → Backs json w.1 other r
    pub absorbed : w.2 ≡ Written.ok → w.0.state ≡ (absorb room.state (y ∷ ys)).0
    pub stored : w.2 ≢ Written.err not_durable

  module _ (next : Room) (same : next.state ≡ (absorb room.state (y ∷ ys)).0) where
    abbrev after_append : Tables P Q
    after_append = (append_rows json t scope (y ∷ ys)).0

    kept : SnapshotRoundTrips json next.state
    kept = subst (SnapshotRoundTrips json) (sym same) saves

    next-Backs : Backs json after_append scope next.state
    next-Backs =
        subst (Backs json after_append scope) (sym same)
          (append-Backs json t scope room.state y ys trips backs)

    not_due-IsKept : IsKept (next, after_append, Written.ok)
    not_due-IsKept = record {
      backed = next-Backs;
      others = λ other r apart b. append_elsewhere json t scope other r y ys trips apart b;
      absorbed = λ e. same;
      stored = λ e. cc e;
    }

    due-IsKept : IsKept (snapshotted next (store_snapshot json after_append scope next.state))
    unfolding mark_snapshotted
    due-IsKept =
        let u = (store_snapshot json after_append scope next.state).0 in
        let done = stored_to json after_append scope next.state kept next-Backs.scoped in
        let answer : store_snapshot json after_append scope next.state ≡ (u, Ports.ok tt) =
          λ i. ((store_snapshot json after_append scope next.state).0, (done i).1) in
        subst (λ r. IsKept (snapshotted next r)) (sym answer)
          (record {
            backed = store-Backs json after_append scope next.state kept next-Backs;
            others = λ other r apart b.
                store_elsewhere json after_append scope other next.state r kept next-Backs.scoped
                  apart (append_elsewhere json t scope other r y ys trips apart b);
            absorbed = λ e. same;
            stored = λ e. cc e;
          })

    appended-IsKept : IsKept (appended json scope next (append_rows json t scope (y ∷ ys)))
    appended-IsKept =
        let n = Store.next_seq t scope + length trips.0 in
        let answer : append_rows json t scope (y ∷ ys) ≡ (after_append, Ports.ok n) =
          λ i. (after_append, (appended_to json t scope y ys trips.0 trips.1 i).1) in
        subst (λ r. IsKept (appended json scope next r)) (sym answer)
          (elim (Bool-cases (snapshot_due next)) [
            | inl due ↦ rw (due, appended) due-IsKept
            | inr early ↦ rw (early, appended) not_due-IsKept
          ])

  -- A batch that the server takes from a client is in the store when it is relayed.
  pub write_batch-IsKept : (now : ℕ) → IsKept (write_batch json scope (y ∷ ys) now room t)
  unfolding write_batch
  write_batch-IsKept now = elim (accept_step room (y ∷ ys) now) [
    | inl (changed, result, state) ↦
        let next = (accept room (y ∷ ys) now).0 in
        let answer : accept room (y ∷ ys) now ≡ (next, Accepted.ok changed) =
          λ i. (next, result i) in
        subst (λ r. IsKept (settled json scope (y ∷ ys) t r)) (sym answer)
          (appended-IsKept next state)
    | inr (e, result, same) ↦
        let answer : accept room (y ∷ ys) now ≡ (room, Accepted.err e) = λ i. (same i, result i) in
        subst (λ r. IsKept (settled json scope (y ∷ ys) t r)) (sym answer)
          (record {
            backed = backs;
            others = λ other r apart b. b;
            absorbed = λ h. cc h;
            stored = λ h.
                let same_error : e ≡ not_durable = cc h in
                accept_durable room (y ∷ ys) now (result ∙ ap Accepted.err same_error);
          })
  ]
