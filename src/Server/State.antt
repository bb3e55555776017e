-- ===== src/Server/State.antt =====
-- The rooms and their store: crates/kboard-server/src/main.rs, `ServerState` and `AppState`. The lock
-- is held for the whole of each function, so that each is one step. What the broadcast channels of
-- the rooms count as their receivers is an argument.
use k_board.Common.{ℕ, not, [], ◌∷◌, Option, none, some, length, leb, if◌then◌else◌}
use k_board.Common.Order.{bytes_ord}
use k_board.Common.Map
use k_board.Common.Map.{Map}
use k_board.Document.{ScopeId}
use k_board.Snapshot.{Snapshot}
use k_board.Ports.{Answer, ok, err}
use k_board.Store.{Tables, Json, restore}
use k_board.Server.Room
use k_board.Server.Room.{Room, RoomStats, is_reclaimable}
use k_board.Server.Limits.{max_rooms, scope_is_acceptable}

pub record ServerState (P Q : Type 0) : Type 0 where
  pub rooms : Map ScopeId Room
  pub store : Tables P Q

-- What the closures do that `with_room` and `with_existing` are given.
abbrev pub Action : Type 0 → Type 0 → Type 0 → Type 0
Action P Q T = Room → Tables P Q → Room × Tables P Q × T

abbrev pub acted :
    {P Q T : Type 0}
    → ServerState P Q
    → ScopeId
    → Action P Q T
    → Option Room
    → ServerState P Q × Option T
acted s scope action none = (s, none)
acted s scope action (some room) =
    let (room', store, t) = action room s.store in
    (record { rooms = Map.insert scope room' s.rooms; store = store }, some t)

unfoldable pub with_existing :
    {P Q T : Type 0} → ServerState P Q → ScopeId → Action P Q T → ServerState P Q × Option T
with_existing s scope action = acted s scope action (Map.lookup scope s.rooms)

-- A room is restored, or new where the store cannot answer.
abbrev pub opened : ScopeId → Answer Snapshot → ℕ → Room
opened scope (ok restored) now = Room.restored scope restored now
opened scope (err e) now = Room.new scope now

-- The state with a room under the scope, if the room cap allows it.
abbrev pub prepared :
    {P Q : Type 0}
    → Json P Q
    → ServerState P Q
    → ScopeId
    → ℕ
    → Option Room
    → Option (ServerState P Q)
prepared json s scope now (some room) = some s
prepared json s scope now none =
    if leb max_rooms (length s.rooms)
    then none
    else some (record s {
      rooms = Map.insert scope (opened scope (restore json s.store scope) now) s.rooms;
    })

abbrev pub continued :
    {P Q T : Type 0}
    → ServerState P Q
    → ScopeId
    → Action P Q T
    → Option (ServerState P Q)
    → ServerState P Q × Option T
continued s scope action none = (s, none)
continued s scope action (some s') = with_existing s' scope action

unfoldable pub with_room :
    {P Q T : Type 0}
    → Json P Q
    → ServerState P Q
    → ScopeId
    → ℕ
    → Action P Q T
    → ServerState P Q × Option T
with_room json s scope now action =
    continued s scope action (prepared json s scope now (Map.lookup scope s.rooms))

-- `rooms.retain`, on the number of receivers of each room.
unfoldable pub retain : (ScopeId → ℕ) → ℕ → Map ScopeId Room → Map ScopeId Room
retain receivers now [] = []
retain receivers now ((scope, room) ∷ rooms) =
    let rest = retain receivers now rooms in
    if not (is_reclaimable room (receivers scope) now) then (scope, room) ∷ rest else rest

unfoldable pub sweep : {P Q : Type 0} → ServerState P Q → (ScopeId → ℕ) → ℕ → ServerState P Q
sweep s receivers now = record s { rooms = retain receivers now s.rooms }

-- The responses of `room_stats`.
pub data Stats : Type 0 where
  bad_request not_found : Stats
  found : RoomStats → Stats

abbrev pub answered : {P Q : Type 0} → ServerState P Q × Option RoomStats → Stats
answered (s, none) = Stats.not_found
answered (s, some stats) = Stats.found stats

unfoldable pub room_stats : {P Q : Type 0} → ServerState P Q → (ScopeId → ℕ) → ScopeId → Stats
room_stats s receivers scope =
    if not (scope_is_acceptable scope)
    then Stats.bad_request
    else answered
        (with_existing s scope (λ room store. (room, store, Room.stats room (receivers scope))))
