-- ===== src/Server/Relay.antt =====
-- What is relayed to the other connections of a room: crates/kboard-server/src/main.rs, `session`.
use k_board.Common.{
  ℕ, Bool, true, false, List, ◌∷◌, Option, none, some, length, ltb, ◌≡◌, refl, ap, Bool-cases, inl,
  inr, ◌⊎◌, arith,
}
use k_board.Common.Order.{bytes_ord, equals_self}
use k_board.Common.Map
use k_board.Common.Text.{Str}
use k_board.Clock.{ActorId}
use k_board.Document.{ScopeId}
use k_board.Op.{StampedOp}
use k_board.Snapshot.{absorb}
use k_board.Store.{Json, Tables}
use k_board.Common.Map.Laws.{lookup-insert}
use k_board.Server.Limits.{max_frame_bytes}
use k_board.Server.Rate.{RateLimiter, allow, should_disconnect}
use k_board.Server.Room.{Room, Refused, batch_too_large, not_durable, room_full}
use k_board.Server.State.{ServerState, with_existing, acted}
use k_board.Server.Session.{
  Wire, handle_frame, charged, relay, concluded, write_batch, Written, ClientMessage, ServerMessage,
  Handled,
}
use k_board.Server.Logged.{IsLogged, Fate, write_batch-Fate}

module _ {P Q : Type 0} (json : Json P Q) (wire : Wire) (scope : ScopeId) (connection : ActorId)
    (s : ServerState P Q) (y : StampedOp) (ys : List StampedOp) where
  -- The room was there and has absorbed the batch, the log of the board has been extended by the
  -- encoded batch, and the payload is the printed batch.
  pub record IsRelayed (handled : Handled P Q) (payload : Str) : Type 0 where
    pub room : Room
    pub present : Map.lookup scope s.rooms ≡ some room
    pub next : Room
    pub held : Map.lookup scope handled.state.rooms ≡ some next
    pub absorbed : next.state ≡ (absorb room.state (y ∷ ys)).0
    pub logged : IsLogged json scope y ys s.store handled.state.store
    pub printed : wire.print (ServerMessage.ops (y ∷ ys)) ≡ some payload

  -- Something was sent and it was relayed, or nothing was sent and the store is as it was.
  abbrev pub IsLoggedIfSent : Handled P Q → Type 0
  IsLoggedIfSent handled =
      ((payload : Str) × (handled.sent ≡ some payload) × IsRelayed handled payload)
      ⊎ ((handled.sent ≡ none) × (handled.state.store ≡ s.store))

  refused_lem :
      (limiter : RateLimiter) (relayed : Str) (t : ServerState P Q) (e : Refused)
      → let handled =
          concluded json wire scope connection limiter relayed (t, some (Written.err e)) in
        (handled.sent ≡ none) × (handled.state ≡ t)
  refused_lem limiter relayed t batch_too_large = (refl, refl)
  refused_lem limiter relayed t not_durable = (refl, refl)
  refused_lem limiter relayed t room_full = (refl, refl)

  fate-IsLoggedIfSent :
      (limiter : RateLimiter) (relayed : Str) (room : Room) (w : Room × Tables P Q × Written)
      → Map.lookup scope s.rooms ≡ some room
      → wire.print (ServerMessage.ops (y ∷ ys)) ≡ some relayed
      → Fate json scope y ys s.store room w
      → IsLoggedIfSent (
          concluded json wire scope connection limiter relayed
            (record { rooms = Map.insert scope w.0 s.rooms; store = w.1 }, some w.2))
  fate-IsLoggedIfSent limiter relayed room _ h printed (Fate.written next u state log) = inl (
    relayed,
    refl,
    record {
      room = room;
      present = h;
      next = next;
      held = ground (arith, lookup-insert scope scope next s.rooms, equals_self scope);
      absorbed = state;
      logged = log;
      printed = printed;
    },
  )
  fate-IsLoggedIfSent limiter relayed room _ h printed (Fate.refused next e) =
      let t : ServerState P Q = record { rooms = Map.insert scope next s.rooms; store = s.store } in
      let (silent, same) = refused_lem limiter relayed t e in inr (silent, ap (λ r. r.store) same)

  acted-IsLoggedIfSent :
      (limiter : RateLimiter) (now : ℕ) (relayed : Str) (found : Option Room)
      → Map.lookup scope s.rooms ≡ found
      → wire.print (ServerMessage.ops (y ∷ ys)) ≡ some relayed
      → IsLoggedIfSent (
          concluded json wire scope connection limiter relayed
            (acted s scope (write_batch json scope (y ∷ ys) now) found))
  acted-IsLoggedIfSent limiter now relayed none h printed = inr (refl, refl)
  acted-IsLoggedIfSent limiter now relayed (some room) h printed =
      fate-IsLoggedIfSent limiter relayed room _ h printed
        (write_batch-Fate json scope y ys s.store room now)

  relay-IsLoggedIfSent :
      (limiter : RateLimiter) (now : ℕ) (printed : Option Str)
      → wire.print (ServerMessage.ops (y ∷ ys)) ≡ printed
      → IsLoggedIfSent (relay json wire scope connection s limiter now (y ∷ ys) printed)
  unfolding with_existing
  relay-IsLoggedIfSent limiter now none printed = inr (refl, refl)
  relay-IsLoggedIfSent limiter now (some relayed) printed =
      acted-IsLoggedIfSent limiter now relayed (Map.lookup scope s.rooms) refl printed

  charged-IsLoggedIfSent :
      (text : Str) (now : ℕ) (answer : RateLimiter × Bool)
      → wire.parse text ≡ some (ClientMessage.ops (y ∷ ys))
      → IsLoggedIfSent (charged json wire scope connection s text now answer)
  charged-IsLoggedIfSent text now (limiter, true) parsed =
      rw (parsed, charged)
        (relay-IsLoggedIfSent limiter now (wire.print (ServerMessage.ops (y ∷ ys))) refl)
  charged-IsLoggedIfSent text now (limiter, false) parsed =
      elim (Bool-cases (should_disconnect limiter)) [
        | inl flood ↦ rw (flood, charged) (inr (refl, refl))
        | inr burst ↦ rw (burst, charged) (inr (refl, refl))
      ]

  -- A frame with operations is in the log exactly when it is relayed: either the server sends the
  -- printed operations to the other connections of the board, the room was in memory and has absorbed
  -- them, and the log of the board has been extended by them, each encoded; or nothing is sent, and
  -- the store is as it was, also where the store refuses to append.
  pub handle_frame-IsLoggedIfSent :
      (limiter : RateLimiter) (text : Str) (arrived now : ℕ)
      → wire.parse text ≡ some (ClientMessage.ops (y ∷ ys))
      → IsLoggedIfSent (handle_frame json wire scope connection s limiter text arrived now)
  unfolding handle_frame
  handle_frame-IsLoggedIfSent limiter text arrived now parsed =
      elim (Bool-cases (ltb max_frame_bytes (length text))) [
        | inl large ↦ rw (large, handle_frame) (inr (refl, refl))
        | inr fits ↦
            rw (fits, handle_frame) (charged-IsLoggedIfSent text now (allow limiter arrived) parsed)
      ]
