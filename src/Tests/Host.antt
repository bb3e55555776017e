-- ===== src/Tests/Host.antt =====
-- The theorems on the ports and the rooms at concrete inputs: crates/kboard-core/src/ports.rs and
-- crates/kboard-server/src.
use k_board.Common.{is_some, ◌||◌, ◌+◌, ◌<◌, ◌≤◌, ◌^◌, [], ◌∷◌, some, ◌≡◌, refl, ◌≢◌, ◌↔◌, arith}
use k_board.Common.Order.{bytes_ord, cmp_bytes}
use k_board.Common.Text.{ascii}
use k_board.Document.{total_count}
use k_board.Snapshot
use k_board.Snapshot.{absorb}
use k_board.Op.{StampedOp}
use k_board.Ports.{ok, Logs, append}
use k_board.Server.Limits.{max_ops_per_frame, max_elements_per_room}
use k_board.Server.Room
use k_board.Server.Room.{Room, Refused, room_full, batch_too_large, accept, document, stats}
use k_board.Server.Room.Laws.{accept_ceiling, serve, accepted_ops, serve-state}
use k_board.Common.Map
use k_board.Snapshot.{Snapshot, materialize}
use k_board.Store.{Json, Tables, rows, append_rows, restore, truncate_absorbed}
use k_board.Store.Rows.{RoundTrips}
use k_board.Store.Restore.{SnapshotRoundTrips, saved, restore-append, restore-truncate_absorbed}
use k_board.Store.Scopes.{union, logged, scopes, contains, has_rows, IsAscending, scopes_lem}
use k_board.Tests.Data.{board, elsewhere, moved, moved_again}

apart : elsewhere ≢ board
apart e = cc

abbrev logs : Logs
logs = (append [] board (moved ∷ [])).0

abbrev open_room : Room
open_room = Room.new board 0

empty_room : total_count (document open_room) < max_elements_per_room + max_ops_per_frame
unfolding Room.new Room.restored Snapshot.empty k_board.Document.new total_count document
empty_room = omega arith

accept_ceiling_example :
    let (r, result) = accept open_room (moved ∷ []) 5 in
    (total_count (document r) < max_elements_per_room + max_ops_per_frame)
    × ((result ≡ Room.err batch_too_large) ↔ (max_ops_per_frame < 1))
    × ((result ≡ Room.err room_full)
        ↔ ((1 ≤ max_ops_per_frame) × (max_elements_per_room ≤ total_count (document open_room))))
    × ((e : Refused) → result ≡ Room.err e → r ≡ open_room)
accept_ceiling_example = accept_ceiling open_room (moved ∷ []) 5 empty_room

nothing_absorbed : open_room.state.absorbed < 2 ^ 64
unfolding Room.new Room.restored Snapshot.empty
nothing_absorbed = omega arith

serve-state_example :
    (serve open_room ((moved ∷ [], 5) ∷ (moved_again ∷ [], 6) ∷ [])).state
    ≡ (absorb open_room.state
        (accepted_ops open_room ((moved ∷ [], 5) ∷ (moved_again ∷ [], 6) ∷ []))).0
serve-state_example =
    serve-state open_room ((moved ∷ [], 5) ∷ (moved_again ∷ [], 6) ∷ []) nothing_absorbed

-- Texts that are the values themselves.
abbrev plain : Json StampedOp Snapshot
plain = record {
  encode = some;
  decode = some;
  encode_snapshot = some;
  decode_snapshot = some;
  complaint = [];
}

abbrev new_tables : Tables StampedOp Snapshot
new_tables = record { operations = []; snapshots = [] }

once : RoundTrips plain (moved ∷ [])
once = (moved ∷ [], refl, refl)

again : RoundTrips plain (moved_again ∷ [])
again = (moved_again ∷ [], refl, refl)

snapshot_kept : SnapshotRoundTrips plain (materialize board (moved ∷ []))
snapshot_kept = (materialize board (moved ∷ []), refl, refl)

no_rows : rows new_tables board ≡ []
unfolding Map.lookup
no_rows = refl

restore-append_example :
    restore plain
      (append_rows plain (saved plain new_tables board (moved ∷ [])) board (moved_again ∷ [])).0
      board
    ≡ ok (materialize board (moved ∷ moved_again ∷ []))
restore-append_example =
    restore-append plain new_tables board (moved ∷ []) (moved_again ∷ []) once again snapshot_kept
      no_rows

restore-truncate_absorbed_example :
    restore plain
      (append_rows plain
        (truncate_absorbed (saved plain new_tables board (moved ∷ [])) board).0
        board
        (moved_again ∷ [])).0
      board
    ≡ ok (materialize board (moved ∷ []))
restore-truncate_absorbed_example =
    restore-truncate_absorbed plain new_tables board (moved ∷ []) (moved_again ∷ []) once again
      snapshot_kept no_rows (omega arith)

-- A board with a row and a snapshot, one with a snapshot, and one whose log was emptied.
abbrev three_boards : Tables StampedOp Snapshot
three_boards = record {
  operations = (ascii "a", (1, moved) ∷ []) ∷ (ascii "b", []) ∷ [];
  snapshots =
      (ascii "a", (1, Snapshot.empty (ascii "a")))
      ∷ (ascii "c", (0, Snapshot.empty (ascii "c")))
      ∷ [];
}

three_listed : scopes three_boards ≡ ascii "a" ∷ ascii "c" ∷ []
unfolding scopes union logged Map.insert cmp_bytes bytes_ord
three_listed = refl

scopes_lem_example :
    (contains (ascii "b") (scopes three_boards) ≡ (
      is_some (Map.lookup (ascii "b") three_boards.snapshots)
      || has_rows (Map.lookup (ascii "b") three_boards.operations)))
    × IsAscending (scopes three_boards)
unfolding cmp_bytes bytes_ord
scopes_lem_example =
    scopes_lem three_boards (ascii "b") ((refl, tt), (tt, tt)) ((refl, tt), (tt, tt))
