-- ===== src/Tests/Lost.antt =====
-- A board that cannot be restored, at a concrete input: crates/kboard-server/src/main.rs.
use k_board.Common.{ℕ, zero, suc, List, [], ◌∷◌, Option, some, none, ◌≡◌, refl, ap, arith}
use k_board.Common.Map
use k_board.Common.Order.{bytes_ord, cmp_bytes}
use k_board.Op.{StampedOp}
use k_board.Snapshot.{Snapshot, materialize}
use k_board.Ports
use k_board.Ports.{backend}
use k_board.Store.{
  Json, restore, load_snapshot, read_rows, decode_rows, rows_since, through_seq, stored_through,
}
use k_board.Store.Rows.{Encodes}
use k_board.Server.State.{with_existing}
use k_board.Server.Session.{Process, Wire, join, write_batch}
use k_board.Server.Reach.{restarted}
use k_board.Server.Unreadable.{join-write_batch}
use k_board.Tests.Data.{board, moved}

-- Texts that are operations, or nothing that can be read.
abbrev some_json : Json (Option StampedOp) Snapshot
some_json = record {
  encode = λ op. some (some op);
  decode = λ text. text;
  encode_snapshot = some;
  decode_snapshot = some;
  complaint = [];
}

abbrev silent_wire : Wire
silent_wire = record { print = λ message. none; parse = λ text. none }

-- The log of the board has one row, which cannot be read.
abbrev damaged : Process (Option StampedOp) Snapshot
damaged = restarted (record { operations = (board, (1, none) ∷ []) ∷ []; snapshots = [] })

abbrev texts : List StampedOp → List (Option StampedOp)
texts [] = []
texts (op ∷ ops) = some op ∷ texts ops

encoded : (ops : List StampedOp) → Encodes some_json ops (texts ops)
encoded [] = refl
encoded (op ∷ ops) = ap (λ es. some (some op) ∷ es) (encoded ops)

abbrev repeated : ℕ → List StampedOp
repeated zero = []
repeated (suc n) = moved ∷ repeated n

unreadable : restore some_json damaged.state.store board ≡ Ports.err (backend [])
unfolding restore load_snapshot read_rows decode_rows rows_since through_seq stored_through
    Map.lookup bytes_ord cmp_bytes
unreadable = refl

no_room : Map.lookup board damaged.state.rooms ≡ none
unfolding Map.lookup
no_room = refl

join-write_batch_example :
    let s = (join some_json silent_wire damaged board 0).0.state in
    restore some_json
      (with_existing s board (write_batch some_json board (moved ∷ repeated 199) 1)).0.store
      board
    ≡ Ports.ok (materialize board (moved ∷ repeated 199))
join-write_batch_example =
    join-write_batch some_json silent_wire board damaged 0 1 (backend []) moved (repeated 199)
      unreadable no_room (omega arith) (omega arith) (omega arith) (texts (moved ∷ repeated 199))
      (encoded (moved ∷ repeated 199)) (_, refl, refl)
