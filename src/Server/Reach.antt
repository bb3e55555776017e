-- ===== src/Server/Reach.antt =====
-- The server that its clients can reach, over restarts: crates/kboard-server/src/main.rs.
use k_board.Common.{
  ℕ, Bool, true, false, not, ◌||◌, List, [], ◌∷◌, Option, none, some, length, ltb, ◌≡◌, refl, sym,
  subst, arith, Bool-cases, inl, inr,
}
use k_board.Common.Order.{bytes_ord}
use k_board.Common.Float.{is_finite}
use k_board.Common.Map
use k_board.Common.Text.{Str}
use k_board.Clock.{ActorId}
use k_board.Document.{ScopeId}
use k_board.Op.{StampedOp}
use k_board.Snapshot
use k_board.Store.{Tables, Json}
use k_board.Store.Rows.{RoundTrips}
use k_board.Store.Restore.{SnapshotRoundTrips}
use k_board.Store.Durable.{Backs, no_tables, no_tables-Backs}
use k_board.Server.Limits.{max_frame_bytes}
use k_board.Server.Rate.{RateLimiter, allow, should_disconnect}
use k_board.Server.Room.{Room, subscribe, batch_too_large, not_durable, room_full}
use k_board.Server.State.{ServerState, with_existing, with_room, prepared, continued, sweep}
use k_board.Server.Session.{
  Process, Wire, join, greet, handle_frame, handle_message, charged, relay, concluded, write_batch,
  Written, ClientMessage, ServerMessage,
}
use k_board.Server.Batch.{write_batch-IsKept}
use k_board.Server.Durable.{
  IsDurable, IsSafe, acted-IsDurable, prepared-IsDurable, retain-IsSorted, length-retain,
  lookup-retain,
}

-- A process whose rooms are gone and whose store is left, which is what starts after a crash.
abbrev pub restarted : {P Q : Type 0} → Tables P Q → Process P Q
restarted store = record { state = record { rooms = []; store = store }; next_connection = 0 }

module _ {P Q : Type 0} (json : Json P Q) (wire : Wire) where
  -- What can happen to the server: a connection begins, a frame arrives on one, the sweeper runs, and
  -- the process ends, at any time, and is started again.
  pub data Step : Process P Q → Process P Q → Type 0 where
    joined : (p : Process P Q) (scope : ScopeId) (now : ℕ) → Step p (join json wire p scope now).0
    framed :
        (p : Process P Q) (scope : ScopeId) (connection : ActorId) (limiter : RateLimiter)
        (text : Str) (arrived now : ℕ)
        → Step p (record p {
          state = (handle_frame json wire scope connection p.state limiter text arrived now).state;
        })
    swept :
        (p : Process P Q) (receivers : ScopeId → ℕ) (now : ℕ)
        → Step p (record p { state = sweep p.state receivers now })
    crashed : (p : Process P Q) → Step p (restarted p.state.store)

  pub data Reachable : Process P Q → Type 0 where
    started : Reachable (restarted no_tables)
    stepped : (p q : Process P Q) → Reachable p → Step p q → Reachable q

  -- What a frame of operations needs to be stored and found again: the operations are encoded, and
  -- decoded as they were, and so is the snapshot of the room with them.
  abbrev pub IsStorable : Option Room → List StampedOp → Type 0
  IsStorable none batch = Unit
  IsStorable (some room) batch =
      RoundTrips json batch × SnapshotRoundTrips json (Snapshot.absorb room.state batch).0

  abbrev pub IsFaithfulMessage : ServerState P Q → ScopeId → Option ClientMessage → Type 0
  IsFaithfulMessage s scope (some (ClientMessage.ops batch)) =
      IsStorable (Map.lookup scope s.rooms) batch
  IsFaithfulMessage s scope (some (ClientMessage.presence x y)) = Unit
  IsFaithfulMessage s scope none = Unit

  abbrev pub IsFaithfulStep : (p q : Process P Q) → Step p q → Type 0
  IsFaithfulStep p _ (Step.joined _ scope now) = Unit
  IsFaithfulStep p _ (Step.framed _ scope connection limiter text arrived now) =
      IsFaithfulMessage p.state scope (wire.parse text)
  IsFaithfulStep p _ (Step.swept _ receivers now) = Unit
  IsFaithfulStep p _ (Step.crashed _) = Unit

  -- Every frame on the way to a server was of that kind.
  abbrev pub IsFaithful : (p : Process P Q) → Reachable p → Type 0
  IsFaithful _ Reachable.started = Unit
  IsFaithful _ (Reachable.stepped p q r step) = IsFaithful p r × IsFaithfulStep p q step

  started-IsDurable : IsDurable json (restarted no_tables).state
  unfolding Map.lookup
  started-IsDurable = record {
    sorted = tt;
    few = omega arith;
    readable = λ scope. (Snapshot.empty scope, no_tables-Backs json scope);
    backed = λ scope room h. cc h;
  }

  crashed-IsDurable :
      (s : ServerState P Q) → IsDurable json s → IsDurable json (restarted s.store).state
  unfolding Map.lookup
  crashed-IsDurable s sound = record {
    sorted = tt;
    few = omega arith;
    readable = sound.readable;
    backed = λ scope room h. cc h;
  }

  sweep-IsDurable :
      (s : ServerState P Q) (receivers : ScopeId → ℕ) (now : ℕ)
      → IsDurable json s
      → IsDurable json (sweep s receivers now)
  unfolding sweep
  sweep-IsDurable s receivers now sound = record {
    sorted = retain-IsSorted receivers now s.rooms sound.sorted;
    few = omega (arith, sound.few, length-retain receivers now s.rooms);
    readable = sound.readable;
    backed = λ scope room h.
        sound.backed scope room (lookup-retain receivers now scope room s.rooms sound.sorted h);
  }

  greet-IsSafe :
      (t : Tables P Q) (scope : ScopeId) (connection : ActorId) (now : ℕ) (room : Room)
      → Backs json t scope room.state
      → IsSafe json t scope
          (greet wire connection now room t).0
          (greet wire connection now room t).1
  unfolding subscribe
  greet-IsSafe t scope connection now room b = record { own = b; others = λ other r apart c. c }

  continued-IsDurable :
      (s : ServerState P Q) (scope : ScopeId) (connection : ActorId) (now : ℕ)
      (found : Option (ServerState P Q))
      → ((s' : ServerState P Q) → found ≡ some s' → IsDurable json s')
      → IsDurable json s
      → IsDurable json (continued s scope (greet wire connection now) found).0
  unfolding with_existing
  continued-IsDurable s scope connection now none f sound = sound
  continued-IsDurable s scope connection now (some s') f sound =
      acted-IsDurable json s' scope (greet wire connection now) (Map.lookup scope s'.rooms) refl
        (λ room found. greet-IsSafe s'.store scope connection now room) (f s' refl)

  join-IsDurable :
      (p : Process P Q) (scope : ScopeId) (now : ℕ)
      → IsDurable json p.state
      → IsDurable json (join json wire p scope now).0.state
  unfolding join with_room
  join-IsDurable p scope now sound =
      let found = Map.lookup scope p.state.rooms in
      continued-IsDurable p.state scope _ now (prepared json p.state scope now found)
        (λ s' e. prepared-IsDurable json p.state scope now found s' refl e sound) sound

module _ {P Q : Type 0} (json : Json P Q) (wire : Wire) (scope : ScopeId)
    (connection : ActorId) where
  concluded_state :
      (limiter : RateLimiter) (relayed : Str) (r : ServerState P Q × Option Written)
      → (concluded json wire scope connection limiter relayed r).state ≡ r.0
  concluded_state limiter relayed (s, some Written.ok) = refl
  concluded_state limiter relayed (s, some (Written.err batch_too_large)) = refl
  concluded_state limiter relayed (s, some (Written.err not_durable)) = refl
  concluded_state limiter relayed (s, some (Written.err room_full)) = refl
  concluded_state limiter relayed (s, none) = refl

  write-IsSafe :
      (t : Tables P Q) (y : StampedOp) (ys : List StampedOp) (now : ℕ) (room : Room)
      → IsStorable json wire (some room) (y ∷ ys)
      → Backs json t scope room.state
      → let w = write_batch json scope (y ∷ ys) now room t in IsSafe json t scope w.0 w.1
  write-IsSafe t y ys now room (trips, saves) b =
      let k = write_batch-IsKept json scope y ys t room trips saves b now in
      record { own = k.backed; others = k.others }

  relay-IsDurable :
      (s : ServerState P Q) (limiter : RateLimiter) (now : ℕ) (y : StampedOp) (ys : List StampedOp)
      (printed : Option Str)
      → IsStorable json wire (Map.lookup scope s.rooms) (y ∷ ys)
      → IsDurable json s
      → IsDurable json (relay json wire scope connection s limiter now (y ∷ ys) printed).state
  unfolding with_existing
  relay-IsDurable s limiter now y ys none faithful sound = sound
  relay-IsDurable s limiter now y ys (some relayed) faithful sound =
      subst (IsDurable json) (sym (concluded_state limiter relayed _)) (
        acted-IsDurable json s scope (write_batch json scope (y ∷ ys) now)
          (Map.lookup scope s.rooms) refl
          (λ room found.
            write-IsSafe s.store y ys now room
              (subst (λ r. IsStorable json wire r (y ∷ ys)) found faithful))
          sound)

  message-IsDurable :
      (s : ServerState P Q) (limiter : RateLimiter) (now : ℕ) (message : Option ClientMessage)
      → IsFaithfulMessage json wire s scope message
      → IsDurable json s
      → IsDurable json (handle_message json wire scope connection s limiter now message).state
  message-IsDurable s limiter now none faithful sound = sound
  message-IsDurable s limiter now (some (ClientMessage.ops [])) faithful sound = sound
  message-IsDurable s limiter now (some (ClientMessage.ops (y ∷ ys))) faithful sound =
      relay-IsDurable s limiter now y ys (wire.print (ServerMessage.ops (y ∷ ys))) faithful sound
  message-IsDurable s limiter now (some (ClientMessage.presence x y)) faithful sound =
      elim (Bool-cases (not (is_finite x) || not (is_finite y))) [
        | inl bad ↦ rw (bad, handle_message) sound
        | inr good ↦ rw (good, handle_message) sound
      ]

  charged-IsDurable :
      (s : ServerState P Q) (text : Str) (now : ℕ) (answer : RateLimiter × Bool)
      → IsFaithfulMessage json wire s scope (wire.parse text)
      → IsDurable json s
      → IsDurable json (charged json wire scope connection s text now answer).state
  charged-IsDurable s text now (limiter, true) faithful sound =
      message-IsDurable s limiter now (wire.parse text) faithful sound
  charged-IsDurable s text now (limiter, false) faithful sound =
      elim (Bool-cases (should_disconnect limiter)) [
        | inl flood ↦ rw (flood, charged) sound
        | inr burst ↦ rw (burst, charged) sound
      ]

  pub frame-IsDurable :
      (s : ServerState P Q) (limiter : RateLimiter) (text : Str) (arrived now : ℕ)
      → IsFaithfulMessage json wire s scope (wire.parse text)
      → IsDurable json s
      → IsDurable json (handle_frame json wire scope connection s limiter text arrived now).state
  unfolding handle_frame
  frame-IsDurable s limiter text arrived now faithful sound =
      elim (Bool-cases (ltb max_frame_bytes (length text))) [
        | inl large ↦ rw (large, handle_frame) sound
        | inr fits ↦
            rw (fits, handle_frame)
              (charged-IsDurable s text now (allow limiter arrived) faithful sound)
      ]

module _ {P Q : Type 0} (json : Json P Q) (wire : Wire) where
  Step-IsDurable :
      (p q : Process P Q) (step : Step json wire p q)
      → IsFaithfulStep json wire p q step
      → IsDurable json p.state
      → IsDurable json q.state
  Step-IsDurable p _ (Step.joined _ scope now) faithful sound =
      join-IsDurable json wire p scope now sound
  Step-IsDurable p _ (Step.framed _ scope connection limiter text arrived now) faithful sound =
      frame-IsDurable json wire scope connection p.state limiter text arrived now faithful sound
  Step-IsDurable p _ (Step.swept _ receivers now) faithful sound =
      sweep-IsDurable json wire p.state receivers now sound
  Step-IsDurable p _ (Step.crashed _) faithful sound = crashed-IsDurable json wire p.state sound

  -- Whatever clients send, and however often the process is started again, the store can be read,
  -- what it restores of a board that is in memory is the very snapshot that its room holds, and there
  -- are no more rooms than the cap. The operations of each frame to a board in memory, and the
  -- snapshot of its room with them, must be encoded, and decoded as they were.
  pub Reachable-IsDurable :
      (p : Process P Q) (r : Reachable json wire p)
      → IsFaithful json wire p r
      → IsDurable json p.state
  Reachable-IsDurable _ Reachable.started faithful = started-IsDurable json wire
  Reachable-IsDurable _ (Reachable.stepped p q r step) faithful =
      Step-IsDurable p q step faithful.1 (Reachable-IsDurable p r faithful.0)
