-- ===== src/Tests/Service.antt =====
-- The theorems on the server at concrete inputs: crates/kboard-server/src.
use k_board.Common.{false, List, [], ◌∷◌, none, some, ◌≡◌, refl, arith}
use k_board.Common.Order.{bytes_ord, cmp_bytes, nat_ord, pair_ord}
use k_board.Clock.{cmp_hlc}
use k_board.Clock.Order.{hlc_ord}
use k_board.Document.{total_count}
use k_board.Element
use k_board.Element.{max_from, max_of}
use k_board.Lww
use k_board.Op
use k_board.Prop.Key.Order.{key_ord, rank}
use k_board.Prop.Value.{is_valid}
use k_board.Common.Map
use k_board.Common.Float.{log2_below, is_finite}
use k_board.Common.Float.Arith.{
  less_or_equal, is_nan, magnitude, float_min, float_add, float_mul, round_ratio, nearest,
  float_div, signed, add_units, differ, exponent_of, float_sub, is_negative, less, negate,
  significand_of, units,
}
use k_board.Common.Text.{ascii}
use k_board.Document
use k_board.Snapshot
use k_board.Snapshot.{Snapshot}
use k_board.Op.{StampedOp}
use k_board.Store.{
  Json, append_rows, insert_rows, max_seq, next_seq, store_snapshot, restore, load_snapshot,
  read_rows, decode_rows, rows_since, through_seq, stored_through,
}
use k_board.Server.Rate
use k_board.Server.Rate.{RateLimiter, should_disconnect, allow, max_rate_strikes}
use k_board.Server.Room
use k_board.Server.Room.{subscribe}
use k_board.Server.State.{with_existing, with_room}
use k_board.Server.Session.{write_batch, Process, Wire, ClientMessage, join, handle_frame}
use k_board.Server.Durable.{IsDurable}
use k_board.Server.Reach.{Reachable, Step, restarted, IsFaithfulMessage, Reachable-IsDurable}
use k_board.Server.Relay.{IsLoggedIfSent, handle_frame-IsLoggedIfSent}
use k_board.Server.Loop.{Frame, IsFlood, receive, receive-IsFlood}
use k_board.Tests.Data.{board, moved}

-- JSON texts that are the values themselves, and a wire on which any text is one operation.
abbrev same_json : Json StampedOp Snapshot
same_json = record {
  encode = some;
  decode = some;
  encode_snapshot = some;
  decode_snapshot = some;
  complaint = [];
}

abbrev one_wire : Wire
one_wire = record {
  print = λ message. some (ascii "{}");
  parse = λ text. some (ClientMessage.ops (moved ∷ []));
}

abbrev at_first : Process StampedOp Snapshot
at_first = restarted (record { operations = []; snapshots = [] })

abbrev with_board : Process StampedOp Snapshot
with_board = (join same_json one_wire at_first board 0).0

float_program : Unit {0}
unfolding allow less_or_equal is_nan magnitude Rate.refilled float_min float_add Rate.new float_mul
    Rate.as_seconds Rate.as_float round_ratio log2_below nearest float_div signed add_units differ
    exponent_of float_sub is_negative less negate significand_of units
float_program = tt

no_time : Rate.as_seconds 0 ≡ 0
unfolding float_program
no_time = refl

abbrev limiter : RateLimiter
limiter = Rate.new 0

abbrev after_frame : Process StampedOp Snapshot
after_frame = record with_board {
  state = (handle_frame same_json one_wire board 1 with_board.state limiter [] 0 0).state;
}

after_frame_reached : Reachable same_json one_wire after_frame
after_frame_reached =
    Reachable.stepped with_board after_frame
      (Reachable.stepped at_first with_board Reachable.started (Step.joined at_first board 0))
      (Step.framed with_board board 1 limiter [] 0 0)

service_program : Unit {0}
unfolding float_program handle_frame hlc_ord cmp_hlc is_finite Map.insert Map.lookup bytes_ord
    cmp_bytes nat_ord pair_ord Document.delete Document.entry Document.entry_set total_count
    max_from max_of Element.new Element.set Lww.new Lww.set Op.apply Op.apply_all Op.apply_op
    key_ord rank is_valid should_disconnect Room.accept Room.mark_snapshotted Room.snapshot_due
    write_batch with_existing Snapshot.absorb Snapshot.advance append_rows insert_rows max_seq
    next_seq store_snapshot join with_room restore Room.restored Document.new Snapshot.empty
    subscribe load_snapshot read_rows decode_rows rows_since through_seq stored_through
service_program = tt

faithful_frame :
    IsFaithfulMessage same_json one_wire with_board.state board
      (some (ClientMessage.ops (moved ∷ [])))
unfolding service_program
faithful_frame = ((moved ∷ [], refl, refl), (_, refl, refl))

Reachable-IsDurable_example : IsDurable same_json after_frame.state
unfolding after_frame_reached
Reachable-IsDurable_example =
    Reachable-IsDurable same_json one_wire after_frame after_frame_reached
      ((tt, tt), faithful_frame)

handle_frame-IsLoggedIfSent_example :
    IsLoggedIfSent same_json one_wire board 1 with_board.state moved []
      (handle_frame same_json one_wire board 1 with_board.state limiter [] 0 0)
handle_frame-IsLoggedIfSent_example =
    handle_frame-IsLoggedIfSent same_json one_wire board 1 with_board.state moved [] limiter [] 0 0
      refl

-- The same where no operation can be encoded: nothing is sent.
abbrev mute_json : Json StampedOp Snapshot
mute_json = record same_json { encode = λ op. none }

unlogged :
    let handled = handle_frame mute_json one_wire board 1 with_board.state limiter [] 0 0 in
    (handled.sent ≡ none) × (handled.stays ≡ false)
unfolding service_program
unlogged = (refl, refl)

-- A connection without tokens that is one strike from being closed.
abbrev spent : RateLimiter
spent = record { tokens = 0; last_refill = 0; strikes = 19 }

abbrev one_frame : List Frame
one_frame = record { text = []; arrived = 0; now = 0 } ∷ []

refused_once : IsFlood spent one_frame
unfolding float_program
refused_once = (refl, tt)

receive-IsFlood_example :
    (receive same_json one_wire board 1 with_board.state spent one_frame).waits ≡ false
receive-IsFlood_example =
    receive-IsFlood same_json one_wire board 1 with_board.state spent one_frame (omega arith)
      refused_once (omega arith)
