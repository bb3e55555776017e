-- ===== src/Server/Session.antt =====
-- A connection: crates/kboard-server/src/main.rs, `session` and the messages. The JSON of messages is
-- serde_json's: it is an argument. The socket and the broadcast channel are axum's and tokio's: what
-- is sent is a value.
use k_board.Common.{
  ℕ, ◌+◌, ◌%◌, ◌^◌, Bool, true, false, not, ◌||◌, ◌==◌, List, [], ◌∷◌, Option, none, some, length,
  ltb, if◌then◌else◌,
}
use k_board.Common.Float.{F64, is_finite}
use k_board.Common.Text.{Str}
use k_board.Clock.{ActorId}
use k_board.Document.{Document, ScopeId}
use k_board.Op.{StampedOp}
use k_board.Ports.{Answer}
use k_board.Store.{Tables, Json, append_rows, store_snapshot}
use k_board.Server.Limits.{max_frame_bytes}
use k_board.Server.Rate.{RateLimiter, allow, should_disconnect}
use k_board.Server.Room.{
  Room, Refused, batch_too_large, not_durable, room_full, Accepted, accept, snapshot_due,
  mark_snapshotted, subscribe, document,
}
use k_board.Server.State.{ServerState, with_room, with_existing}

pub data ServerMessage : Type 0 where
  init : ActorId → Document → ServerMessage
  ops : List StampedOp → ServerMessage
  presence : ActorId → F64 → F64 → ServerMessage
  left : ActorId → ServerMessage

pub data ClientMessage : Type 0 where
  ops : List StampedOp → ClientMessage
  presence : F64 → F64 → ClientMessage

-- `serde_json::to_string` and `serde_json::from_str`.
pub record Wire : Type 0 where
  pub print : ServerMessage → Option Str
  pub parse : Str → Option ClientMessage

-- `Result<(), Refused>`.
pub data Written : Type 0 where
  ok : Written
  err : Refused → Written

module _ {P Q : Type 0} where
  -- The snapshot was attempted: a failure is only logged.
  abbrev pub snapshotted : Room → Tables P Q × Answer Unit → Room × Tables P Q × Written
  snapshotted room (store, Answer.ok done) = (mark_snapshotted room, store, Written.ok)
  snapshotted room (store, Answer.err e) = (room, store, Written.ok)

  abbrev pub appended :
      Json P Q → ScopeId → Room → Tables P Q × Answer ℕ → Room × Tables P Q × Written
  appended json scope room (store, Answer.err e) = (room, store, Written.err not_durable)
  appended json scope room (store, Answer.ok seq) =
      if snapshot_due room
      then snapshotted room (store_snapshot json store scope room.state)
      else (room, store, Written.ok)

  abbrev pub settled :
      Json P Q
      → ScopeId
      → List StampedOp
      → Tables P Q
      → Room × Accepted
      → Room × Tables P Q × Written
  settled json scope batch store (room, Accepted.err refused) = (room, store, Written.err refused)
  settled json scope batch store (room, Accepted.ok changed) =
      appended json scope room (append_rows json store scope batch)

  -- The closure under which a batch is accepted, recorded and relayed.
  unfoldable pub write_batch :
      Json P Q → ScopeId → List StampedOp → ℕ → Room → Tables P Q → Room × Tables P Q × Written
  write_batch json scope batch now room store =
      settled json scope batch store (accept room batch now)

-- A frame that was received: what the server, the limiter of the connection and the channel of the
-- room get of it, and whether the loop goes on.
pub record Handled (P Q : Type 0) : Type 0 where
  pub state : ServerState P Q
  pub limiter : RateLimiter
  pub sent : Option Str
  pub stays : Bool

module _ {P Q : Type 0} (json : Json P Q) (wire : Wire) (scope : ScopeId)
    (connection : ActorId) where
  -- `continue` and `break`.
  abbrev pub skip : ServerState P Q → RateLimiter → Handled P Q
  skip s limiter = record { state = s; limiter = limiter; sent = none; stays = true }

  abbrev pub leave : ServerState P Q → RateLimiter → Handled P Q
  leave s limiter = record { state = s; limiter = limiter; sent = none; stays = false }

  -- The `match` on the outcome of a batch.
  abbrev pub concluded : RateLimiter → Str → ServerState P Q × Option Written → Handled P Q
  concluded limiter relayed (s, some Written.ok) = record {
    state = s;
    limiter = limiter;
    sent = some relayed;
    stays = true;
  }
  concluded limiter relayed (s, some (Written.err batch_too_large)) = leave s limiter
  concluded limiter relayed (s, some (Written.err not_durable)) = leave s limiter
  concluded limiter relayed (s, some (Written.err room_full)) = skip s limiter
  concluded limiter relayed (s, none) = leave s limiter

  abbrev pub relay : ServerState P Q → RateLimiter → ℕ → List StampedOp → Option Str → Handled P Q
  relay s limiter now batch none = skip s limiter
  relay s limiter now batch (some relayed) =
      concluded limiter relayed (with_existing s scope (write_batch json scope batch now))

  abbrev pub handle_message : ServerState P Q → RateLimiter → ℕ → Option ClientMessage → Handled P Q
  handle_message s limiter now none = skip s limiter
  handle_message s limiter now (some (ClientMessage.ops [])) = skip s limiter
  handle_message s limiter now (some (ClientMessage.ops (o ∷ os))) =
      relay s limiter now (o ∷ os) (wire.print (ServerMessage.ops (o ∷ os)))
  handle_message s limiter now (some (ClientMessage.presence x y)) =
      if not (is_finite x) || not (is_finite y) then skip s limiter else record {
        state = s;
        limiter = limiter;
        sent = wire.print (ServerMessage.presence connection x y);
        stays = true;
      }

  abbrev pub charged : ServerState P Q → Str → ℕ → RateLimiter × Bool → Handled P Q
  charged s text now (limiter, true) = handle_message s limiter now (wire.parse text)
  charged s text now (limiter, false) =
      if should_disconnect limiter then leave s limiter else skip s limiter

  -- The body of the loop on a text frame. The limiter reads the clock, and the room does later.
  unfoldable pub handle_frame : ServerState P Q → RateLimiter → Str → ℕ → ℕ → Handled P Q
  handle_frame s limiter text arrived now =
      if ltb max_frame_bytes (length text)
      then leave s limiter
      else charged s text now (allow limiter arrived)

-- The state of the process.
pub record Process (P Q : Type 0) : Type 0 where
  pub state : ServerState P Q
  pub next_connection : ℕ

-- How a connection is answered at first: closed at the room cap, dropped without a message where
-- none can be printed, or with the first message.
pub data Joined : Type 0 where
  refused unprinted : Joined
  greeted : ActorId → Str → Joined

abbrev pub greeting : ActorId → Option (Option Str) → Joined
greeting connection none = refused
greeting connection (some none) = unprinted
greeting connection (some (some payload)) = greeted connection payload

abbrev pub greet :
    {P Q : Type 0} → Wire → ActorId → ℕ → Room → Tables P Q → Room × Tables P Q × Option Str
greet wire connection now room store =
    let room' = subscribe room now in
    (room', store, wire.print (ServerMessage.init connection (document room')))

-- The beginning of `session`. `next_connection` is an `AtomicU64`, which wraps around.
unfoldable pub join :
    {P Q : Type 0} → Json P Q → Wire → Process P Q → ScopeId → ℕ → Process P Q × Joined
join json wire p scope now =
    let connection : ℕ = (p.next_connection + 1) % 2 ^ 64 in
    let (state, payload) = with_room json p.state scope now (greet wire connection now) in
    (record { state = state; next_connection = connection }, greeting connection payload)

-- What a connection sends on of the channel: nothing of its own.
unfoldable pub pass_on : ActorId → ActorId × Str → Option Str
pass_on connection (origin, payload) = if origin == connection then none else some payload

-- The end of `session`.
unfoldable pub farewell : Wire → ActorId → Option Str
farewell wire connection = wire.print (ServerMessage.left connection)
