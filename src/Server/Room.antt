-- ===== src/Server/Room.antt =====
-- The room, which holds one snapshot and accepts batches into it:
-- crates/kboard-server/src/room.rs. The broadcast channel is tokio's: what a room reads of it, the
-- number of its receivers, is an argument. Instants are in nanoseconds.
pub mod Laws
use k_board.Common.{
  ℕ, ◌+◌, ◌-◌, ◌%◌, ◌^◌, Bool, true, false, ◌&&◌, List, length, ltb, leb, ◌==◌, if◌then◌else◌,
}
use k_board.Document.{Document, ScopeId, total_count, live_count}
use k_board.Op.{StampedOp}
use k_board.Snapshot
use k_board.Snapshot.{Snapshot, absorb}
use k_board.Server.Limits.{max_ops_per_frame, max_elements_per_room, room_idle_ttl}

pub data Refused : Type 0 where
  room_full batch_too_large not_durable : Refused

-- `Result<usize, Refused>`.
pub data Accepted : Type 0 where
  ok : ℕ → Accepted
  err : Refused → Accepted

abbrev pub snapshot_every : ℕ
snapshot_every = 200

-- `accepted` and `since_snapshot` are `u64`s.
pub record Room : Type 0 where
  pub state : Snapshot
  pub accepted : ℕ
  pub since_snapshot : ℕ
  pub last_active : ℕ

unfoldable pub restored : ScopeId → Snapshot → ℕ → Room
restored scope state now = record {
  state = state;
  accepted = 0;
  since_snapshot = 0;
  last_active = now;
}

unfoldable pub new : ScopeId → ℕ → Room
new scope now = restored scope (Snapshot.empty scope) now

unfoldable pub snapshot_due : Room → Bool
snapshot_due r = leb snapshot_every r.since_snapshot

unfoldable pub mark_snapshotted : Room → Room
mark_snapshotted r = record r { since_snapshot = 0 }

-- `subscribe`, without the channel's receiver.
unfoldable pub subscribe : Room → ℕ → Room
subscribe r now = record r { last_active = now }

unfoldable pub document : Room → Document
document r = r.state.document

-- `accept`: the room afterwards, and how many operations changed it or why it refused them.
unfoldable pub accept : Room → List StampedOp → ℕ → Room × Accepted
accept r ops now =
    if ltb max_ops_per_frame (length ops)
    then (r, err batch_too_large)
    else if leb max_elements_per_room (total_count r.state.document)
    then (r, err room_full)
    else (
      record r {
        state = (absorb r.state ops).0;
        accepted = (r.accepted + length ops) % 2 ^ 64;
        since_snapshot = (r.since_snapshot + length ops) % 2 ^ 64;
        last_active = now;
      },
      ok (absorb r.state ops).1,
    )

-- `duration_since` saturates at zero.
unfoldable pub is_reclaimable : Room → ℕ → ℕ → Bool
is_reclaimable r receiver_count now = receiver_count == 0 && ltb room_idle_ttl (now - r.last_active)

pub record RoomStats : Type 0 where
  pub elements : ℕ
  pub tombstones : ℕ
  pub accepted : ℕ
  pub subscribers : ℕ

unfoldable pub stats : Room → ℕ → RoomStats
stats r receiver_count = record {
  elements = live_count r.state.document;
  tombstones = total_count r.state.document - live_count r.state.document;
  accepted = r.accepted;
  subscribers = receiver_count;
}
