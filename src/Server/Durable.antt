-- ===== src/Server/Durable.antt =====
-- What the rooms and the store have to do with each other: crates/kboard-server/src/main.rs,
-- `with_room`, `with_existing` and the sweeper.
use Prim.Native.Nat.Ordering.{lt, eq, gt}
use k_board.Common.{
  Ordering, ℕ, ◌≤◌, false, [], ◌∷◌, Option, none, some, length, leb, ◌≡◌, ap, sym, subst, ◌∙◌,
  arith, Bool-cases, inl, inr,
}
use k_board.Common.Order.{bytes_ord, equals, same_of_equals}
use k_board.Common.Map
use k_board.Common.Map.{Map, IsSorted, Above}
use k_board.Common.Map.Laws.{lookup-insert, insert-IsSorted, length-insert, lookup_of_tail}
use k_board.Document.{ScopeId}
use k_board.Snapshot.{Snapshot}
use k_board.Store.{Tables, Json, restore}
use k_board.Store.Durable.{Backs}
use k_board.Server.Limits.{max_rooms}
use k_board.Server.Room
use k_board.Server.Room.{Room, is_reclaimable, subscribe}
use k_board.Server.State.{ServerState, Action, acted, prepared, opened, retain}

same_head :
    (j scope : ScopeId) (room r : Room) (m n : Map ScopeId Room)
    → Map.lookup j ((scope, room) ∷ m) ≡ some r
    → (Map.lookup j m ≡ some r → Map.lookup j n ≡ some r)
    → Map.lookup j ((scope, room) ∷ n) ≡ some r
unfolding Map.lookup
same_head j scope room r m n h f = tails (bytes_ord.cmp j scope) h
  where
    tails :
        (o : Ordering)
        → (elim o [ lt ↦ none | eq ↦ some room | gt ↦ Map.lookup j m ]) ≡ some r
        → (elim o [ lt ↦ none | eq ↦ some room | gt ↦ Map.lookup j n ]) ≡ some r
    tails lt e = e
    tails eq e = e
    tails gt e = f e

module _ (receivers : ScopeId → ℕ) (now : ℕ) where
  retain-Above :
      (scope : ScopeId) (rooms : Map ScopeId Room)
      → Above scope rooms
      → Above scope (retain receivers now rooms)
  unfolding retain
  retain-Above scope [] a = tt
  retain-Above scope ((other, room) ∷ rooms) a = ground (arith, retain-Above scope rooms a.1)

  pub retain-IsSorted :
      (rooms : Map ScopeId Room) → IsSorted rooms → IsSorted (retain receivers now rooms)
  unfolding retain
  retain-IsSorted [] s = tt
  retain-IsSorted ((scope, room) ∷ rooms) s =
      ground (arith, retain-IsSorted rooms s.1, retain-Above scope rooms s.0)

  pub length-retain :
      (rooms : Map ScopeId Room) → length (retain receivers now rooms) ≤ length rooms
  unfolding retain
  length-retain [] = omega arith
  length-retain ((scope, room) ∷ rooms) = ground (arith, length-retain rooms)

  -- A room that is kept is a room that was held.
  pub lookup-retain :
      (j : ScopeId) (r : Room) (rooms : Map ScopeId Room)
      → IsSorted rooms
      → Map.lookup j (retain receivers now rooms) ≡ some r
      → Map.lookup j rooms ≡ some r
  unfolding retain
  lookup-retain j r [] s h = h
  lookup-retain j r ((scope, room) ∷ rooms) s h =
      elim (Bool-cases (is_reclaimable room (receivers scope) now)) [
        | inl idle ↦
            lookup_of_tail j scope room r rooms s.0
              (lookup-retain j r rooms s.1 (rw (idle, retain) at h))
        | inr busy ↦
            same_head j scope room r (retain receivers now rooms) rooms (rw (busy, retain) at h)
              (lookup-retain j r rooms s.1)
      ]

-- The store gives back each scope, and of each room in memory the very snapshot that the room holds;
-- there are no more rooms than the cap.
pub record IsDurable {P Q : Type 0} (json : Json P Q) (s : ServerState P Q) : Type 0 where
  pub sorted : IsSorted s.rooms
  pub few : length s.rooms ≤ max_rooms
  pub readable : (scope : ScopeId) → (r : Snapshot) × Backs json s.store scope r
  pub backed :
      (scope : ScopeId) (room : Room)
      → Map.lookup scope s.rooms ≡ some room
      → Backs json s.store scope room.state

module _ {P Q : Type 0} (json : Json P Q) where
  -- What an action on the room of a scope must do.
  pub record IsSafe (t : Tables P Q) (scope : ScopeId) (next : Room) (u : Tables P Q) : Type 0 where
    pub own : Backs json u scope next.state
    pub others :
        (other : ScopeId) (r : Snapshot)
        → equals other scope ≡ false
        → Backs json t other r
        → Backs json u other r

  written-IsDurable :
      (s : ServerState P Q) (scope : ScopeId) (room next : Room) (u : Tables P Q)
      → Map.lookup scope s.rooms ≡ some room
      → IsSafe s.store scope next u
      → IsDurable json s
      → IsDurable json (record { rooms = Map.insert scope next s.rooms; store = u })
  written-IsDurable s scope room next u found safe sound = record {
    sorted = insert-IsSorted scope next s.rooms sound.sorted;
    few = ground (arith, sound.few, length-insert scope next s.rooms, found);
    readable = λ other. elim (Bool-cases (equals other scope)) [
      | inl here ↦ (
        next.state,
        subst (λ x. Backs json u x next.state) (sym (same_of_equals other scope here)) safe.own,
      )
      | inr there ↦ let (r, b) = sound.readable other in (r, safe.others other r there b)
    ];
    backed = λ other r h. elim (Bool-cases (equals other scope)) [
      | inl here ↦
          let e : next ≡ r = cc (rw here at (lookup-insert other scope next s.rooms), h) in
          subst (λ x. Backs json u x r.state) (sym (same_of_equals other scope here))
            (subst (λ x. Backs json u scope x.state) e safe.own)
      | inr there ↦
          safe.others other r.state there
            (sound.backed other r (sym (rw there at (lookup-insert other scope next s.rooms)) ∙ h))
    ];
  }

  pub acted-IsDurable :
      {T : Type 0}
      → (s : ServerState P Q) (scope : ScopeId) (action : Action P Q T) (found : Option Room)
      → Map.lookup scope s.rooms ≡ found
      → ((room : Room)
          → Map.lookup scope s.rooms ≡ some room
          → Backs json s.store scope room.state
          → IsSafe s.store scope (action room s.store).0 (action room s.store).1)
      → IsDurable json s
      → IsDurable json (acted s scope action found).0
  acted-IsDurable s scope action none h safe sound = sound
  acted-IsDurable s scope action (some room) h safe sound =
      written-IsDurable s scope room (action room s.store).0 (action room s.store).1 h
        (safe room h (sound.backed scope room h)) sound

  pub prepared-IsDurable :
      (s : ServerState P Q) (scope : ScopeId) (now : ℕ) (found : Option Room) (s' : ServerState P Q)
      → Map.lookup scope s.rooms ≡ found
      → prepared json s scope now found ≡ some s'
      → IsDurable json s
      → IsDurable json s'
  unfolding Room.restored
  prepared-IsDurable s scope now (some room) s' h e sound = subst (IsDurable json) (cc e) sound
  prepared-IsDurable s scope now none s' h e sound =
      elim (Bool-cases (leb max_rooms (length s.rooms))) [
        | inl full ↦ absurd (cc (rw (full, prepared) at e))
        | inr free ↦
            let (r, b) = sound.readable scope in
            let room = opened scope (restore json s.store scope) now in
            let fresh : room ≡ Room.restored scope r now =
              ap (λ a. opened scope a now) b.restores in
            let same : room.state ≡ r = ap (λ x. x.state) fresh in
            let e' : record s { rooms = Map.insert scope room s.rooms } ≡ s' =
              cc (rw (free, prepared) at e) in
            subst (IsDurable json) e' (record {
              sorted = insert-IsSorted scope room s.rooms sound.sorted;
              few = ground (arith, length-insert scope room s.rooms, h, free);
              readable = sound.readable;
              backed = λ other x k. elim (Bool-cases (equals other scope)) [
                | inl here ↦
                    let at : room ≡ x =
                      cc (rw here at (lookup-insert other scope room s.rooms), k) in
                    subst (λ i. Backs json s.store i x.state)
                      (sym (same_of_equals other scope here))
                      (subst (Backs json s.store scope) (sym same ∙ ap (λ y. y.state) at) b)
                | inr there ↦
                    sound.backed other x
                      (sym (rw there at (lookup-insert other scope room s.rooms)) ∙ k)
              ];
            })
      ]
