-- ===== src/Server/Logged.antt =====
-- A batch of a client and the log of its board, failures included: crates/kboard-server/src/main.rs,
-- `session`, and crates/kboard-store/src/lib.rs, `append`.
use k_board.Common.{
  ℕ, List, ◌∷◌, ◌++◌, ◌≡◌, refl, ap, sym, subst, ◌∙◌, Bool-cases, Option-cases, ◌⊎◌, inl, inr,
}
use k_board.Common.Order.{bytes_ord, equals}
use k_board.Document.{ScopeId}
use k_board.Op.{StampedOp}
use k_board.Snapshot.{Snapshot, absorb}
use k_board.Ports
use k_board.Ports.{Answer, PortError, backend}
use k_board.Store.{
  Tables, Json, rows, max_seq, next_seq, append_rows, insert_rows, commit, store_snapshot,
}
use k_board.Store.Rows.{Encodes, numbered, insert_rows_inv}
use k_board.Store.Restore.{rows-insert}
use k_board.Store.Durable.{appended_to}
use k_board.Server.Room.{
  Room, Refused, not_durable, Accepted, accept, snapshot_due, mark_snapshotted,
}
use k_board.Server.Room.Laws.{accept_step}
use k_board.Server.Session.{Written, write_batch, settled, appended, snapshotted}

module _ {P Q : Type 0} (json : Json P Q) (scope : ScopeId) (y : StampedOp)
    (ys : List StampedOp) where
  -- The log of the scope was extended by the encoded operations, numbered on from where it ended.
  pub record IsLogged (t u : Tables P Q) : Type 0 where
    pub texts : List P
    pub encoded : Encodes json (y ∷ ys) texts
    pub extended : rows u scope ≡ rows t scope ++ numbered (next_seq t scope) texts

  append_cases :
      (t : Tables P Q)
      → ((u : Tables P Q) × (n : ℕ) × (append_rows json t scope (y ∷ ys) ≡ (u, Ports.ok n))
          × IsLogged t u)
        ⊎ ((e : PortError) × (append_rows json t scope (y ∷ ys) ≡ (t, Ports.err e)))
  unfolding append_rows next_seq
  append_cases t =
      elim (Option-cases (insert_rows json (rows t scope) (max_seq (rows t scope)) (y ∷ ys))) [
        | inl failed ↦ inr (backend json.complaint, ap (commit json t scope) failed)
        | inr (after, inserted) ↦
            let (texts, encoded) = insert_rows_inv json _ (rows t scope) (y ∷ ys) after inserted in
            inl (
              _,
              _,
              appended_to json t scope y ys texts encoded,
              record { texts = texts; encoded = encoded; extended = rows-insert t scope _ },
            )
      ]

  snapshotted_lem :
      (room : Room) (r : Tables P Q × Answer Unit)
      → ((snapshotted room r).2 ≡ Written.ok)
        × ((snapshotted room r).0.state ≡ room.state)
        × ((snapshotted room r).1 ≡ r.0)
  unfolding mark_snapshotted
  snapshotted_lem room (store, Ports.ok done) = (refl, refl, refl)
  snapshotted_lem room (store, Ports.err e) = (refl, refl, refl)

  store_rows :
      (t : Tables P Q) (s : Snapshot) → rows (store_snapshot json t scope s).0 scope ≡ rows t scope
  unfolding store_snapshot
  store_rows t s = elim (Bool-cases (equals s.document.scope scope)) [
    | inl own ↦ elim (Option-cases (json.encode_snapshot s)) [
      | inl failed ↦ rw (own, failed) refl
      | inr (document, printed) ↦ rw (own, printed) refl
    ]
    | inr other ↦ rw other refl
  ]

  -- What becomes of a batch.
  pub data Fate (t : Tables P Q) (room : Room) : Room × Tables P Q × Written → Type 0 where
    written :
        (next : Room) (u : Tables P Q)
        → next.state ≡ (absorb room.state (y ∷ ys)).0
        → IsLogged t u
        → Fate t room (next, u, Written.ok)
    refused : (next : Room) (e : Refused) → Fate t room (next, t, Written.err e)

  taken :
      (t : Tables P Q) (room : Room) (w : Room × Tables P Q × Written)
      → w.2 ≡ Written.ok
      → w.0.state ≡ (absorb room.state (y ∷ ys)).0
      → IsLogged t w.1
      → Fate t room w
  taken t room (next, u, Written.ok) ok state log = Fate.written next u state log
  taken t room (next, u, Written.err e) ok state log = absurd (cc ok)

  due-Fate :
      (t : Tables P Q) (room next : Room) (u : Tables P Q)
      → next.state ≡ (absorb room.state (y ∷ ys)).0
      → IsLogged t u
      → Fate t room (snapshotted next (store_snapshot json u scope next.state))
  due-Fate t room next u state log =
      let answer = store_snapshot json u scope next.state in
      let (ok, same, store) = snapshotted_lem next answer in
      taken t room (snapshotted next answer) ok (same ∙ state) (record {
        texts = log.texts;
        encoded = log.encoded;
        extended = ap (λ v. rows v scope) store ∙ store_rows u next.state ∙ log.extended;
      })

  appended-Fate :
      (t : Tables P Q) (room next : Room)
      → next.state ≡ (absorb room.state (y ∷ ys)).0
      → Fate t room (appended json scope next (append_rows json t scope (y ∷ ys)))
  appended-Fate t room next state = elim (append_cases t) [
    | inr (e, failed) ↦
        subst (λ r. Fate t room (appended json scope next r)) (sym failed)
          (Fate.refused next not_durable)
    | inl (u, n, done, log) ↦
        subst (λ r. Fate t room (appended json scope next r)) (sym done)
          (elim (Bool-cases (snapshot_due next)) [
            | inr early ↦ rw (early, appended) (Fate.written next u state log)
            | inl due ↦ rw (due, appended) (due-Fate t room next u state log)
          ])
  ]

  -- A batch is in the log when it is taken, and not in the log when it is refused.
  pub write_batch-Fate :
      (t : Tables P Q) (room : Room) (now : ℕ)
      → Fate t room (write_batch json scope (y ∷ ys) now room t)
  unfolding write_batch
  write_batch-Fate t room now = elim (accept_step room (y ∷ ys) now) [
    | inl (changed, result, state) ↦
        let next = (accept room (y ∷ ys) now).0 in
        let answer : accept room (y ∷ ys) now ≡ (next, Accepted.ok changed) =
          λ i. (next, result i) in
        subst (λ r. Fate t room (settled json scope (y ∷ ys) t r)) (sym answer)
          (appended-Fate t room next state)
    | inr (e, result, same) ↦
        let answer : accept room (y ∷ ys) now ≡ (room, Accepted.err e) = λ i. (same i, result i) in
        subst (λ r. Fate t room (settled json scope (y ∷ ys) t r)) (sym answer)
          (Fate.refused room e)
  ]
