-- ===== src/Tests/Boards.antt =====
-- The theorems on boards at concrete inputs: crates/kboard-ffi/src/board.rs.
use Prim.Native.Nat.Ordering.{lt}
use k_board.Common.{
  length, ℕ, subst, sym, ◌*◌, ◌+◌, ◌^◌, ◌≤◌, refl, true, none, some, ◌<◌, [], ◌∷◌, All, ◌≡◌, arith,
}
use k_board.Clock
use k_board.Clock.{actor_of, cmp_hlc, tick, zero_stamp, u32_max}
use k_board.Prop.Key.{PropKey}
use k_board.Board.{
  redo, Board, open_board, undo, merge_ops, default_opacity, default_font_size, mint_id,
  record_change, record_ops, creation, mutation, capture, captured,
}
use k_board.Frac
use k_board.Clock.Order.{hlc_ord}
use k_board.Document.{live, z_index_for_top, top_key}
use k_board.Document.Invariant.{held}
use k_board.Op.{upsert}
use k_board.Board.Command.{Command, ok, parse_kind}
use k_board.Board.Exec.{exec, create, revise, add_props}
use k_board.Board.Exec.Behind.{IsAhead, ticks, exec-IsAhead}
use k_board.Board.Exec.Restores.{exec-undo}
use k_board.Board.Exec.Reapplies.{exec-redo}
use k_board.Board.Exec.Clear.{exec-clear}
use k_board.Board.Replay.{reading}
use k_board.Common.Text.{ascii}
use k_board.Prop.Value.{PropValue}
use k_board.Board.Reach.{Reachable, Step, IsSound, Reachable-IsSound}
use k_board.Board.Causality.{merge_ops-tick}
use k_board.Common.Map
use k_board.Common.Order.{nat_ord}
use k_board.Lww
use k_board.Prop.Key.Order.{key_ord}
use k_board.Prop.Value.{is_valid}
use k_board.Element
use k_board.Element.{Element, ElementId}
use k_board.Element.Id.{to_hex, from_hex, from_hex-to_hex}
use k_board.Document
use k_board.Op
use k_board.Op.{apply_all}
use k_board.Board.Scene.{require}
use k_board.Tests.Data.{board, moved, moved_again}

abbrev fresh : Board
fresh = open_board board 1

-- A rectangle is added, and then moved.
abbrev placed : Command
placed = Command.add (ascii "rectangle") 0 0 default_opacity default_opacity 0 0 default_opacity

abbrev drawn : Board
drawn = (exec fresh placed 1000).0

-- Actor 1 and counter 1.
abbrev first_id : ElementId
first_id = 2 ^ 64 + 1

abbrev shifted : Command
shifted = Command.move (to_hex first_id) default_opacity default_font_size

drawn_reached : Reachable board 1 (undo drawn 2000).0
drawn_reached =
    Reachable.stepped drawn _
      (Reachable.stepped fresh _ Reachable.opened (Step.executed fresh placed 1000))
      (Step.undid drawn 2000)

Reachable-IsSound_example : IsSound board (undo drawn 2000).0
Reachable-IsSound_example = Reachable-IsSound board 1 (undo drawn 2000).0 drawn_reached

has_room : fresh.clock.last.counter < u32_max
unfolding open_board Clock.new zero_stamp
has_room = omega arith

merge_ops-tick_example :
    All
      (λ o. cmp_hlc o.stamp (tick (merge_ops fresh (moved ∷ moved_again ∷ [])).0.clock 500).1 ≡ lt)
      (moved ∷ moved_again ∷ [])
merge_ops-tick_example =
    merge_ops-tick fresh (moved ∷ moved_again ∷ []) 500 has_room (omega arith, (omega arith, tt))

board_program : Unit {0}
unfolding apply_all Op.apply Op.apply_op Document.new Document.get Document.entry_set Document.entry
    Element.new Element.set is_valid Map.lookup Map.insert Lww.new nat_ord key_ord
board_program = tt

fresh-IsAhead : (n : ℕ) → n ≤ u32_max → IsAhead fresh n
unfolding open_board Clock.new zero_stamp Document.new Element.new Map.lookup
fresh-IsAhead n h = record { behind = λ id key r held. cc held; room = omega arith }

drawing_program : Unit {0}
unfolding board_program exec create revise add_props parse_kind mint_id upsert tick record_change
    record_ops z_index_for_top top_key Frac.between open_board Clock.new zero_stamp from_hex to_hex
    require Element.get live Map.values Element.is_deleted creation mutation capture captured
    actor_of cmp_hlc Lww.set hlc_ord Frac.finish Frac.search_digit Frac.digit_at Document.ordered
    Document.sort_paint Frac.high_at Frac.effective_upper k_board.Common.Text.from_utf8
    k_board.Element.Id.from_str_radix k_board.Element.Id.hex_digits k_board.Element.Id.hex_digit
    k_board.Element.Id.parse_hex k_board.Element.Id.hex_value
drawing_program = tt

shifts : (exec drawn shifted 2000).1 ≡ ok (some (to_hex first_id))
unfolding drawing_program
shifts = refl

drawn_x : reading drawn.document first_id PropKey.x ≡ some (PropValue.num 0)
unfolding drawing_program
drawn_x = refl

ticks-drawn : 2 * ticks drawn ≡ 20
unfolding drawing_program
ticks-drawn = refl

next_id_free : held drawn.document (mint_id drawn).1 ≡ none
unfolding drawing_program
next_id_free = refl

zero_valid : is_valid (PropValue.num 0) ≡ true
unfolding is_valid
zero_valid = refl

exec-IsAhead_example : IsAhead drawn 20
unfolding live Map.values open_board Document.new
exec-IsAhead_example = exec-IsAhead fresh 1000 20 (fresh-IsAhead 29 (omega arith)) placed

drawn-IsAhead : IsAhead drawn (2 * ticks drawn)
unfolding live Map.values open_board Document.new
drawn-IsAhead =
    subst (IsAhead drawn) (sym ticks-drawn)
      (exec-IsAhead fresh 1000 20 (fresh-IsAhead 29 (omega arith)) placed)

exec-undo_example :
    reading (undo (exec drawn shifted 2000).0 3000).0.document first_id PropKey.x
    ≡ some (PropValue.num 0)
exec-undo_example =
    exec-undo drawn shifted 2000 3000 (some (to_hex first_id)) drawn-IsAhead next_id_free shifts
      first_id PropKey.x (PropValue.num 0) drawn_x zero_valid (λ h. cc h)

redo_ticks : 3 * ticks drawn + 1 ≡ 31
unfolding drawing_program
redo_ticks = refl

drawn_again-IsAhead : IsAhead drawn (3 * ticks drawn + 1)
unfolding live Map.values open_board Document.new
drawn_again-IsAhead =
    subst (IsAhead drawn) (sym redo_ticks)
      (exec-IsAhead fresh 1000 31 (fresh-IsAhead 40 (omega arith)) placed)

shifted_x :
    reading (exec drawn shifted 2000).0.document first_id PropKey.x
    ≡ some (PropValue.num default_opacity)
unfolding drawing_program
shifted_x = refl

one_valid : is_valid (PropValue.num default_opacity) ≡ true
unfolding is_valid
one_valid = refl

exec-redo_example :
    reading (redo (undo (exec drawn shifted 2000).0 3000).0 4000).0.document first_id PropKey.x
    ≡ some (PropValue.num default_opacity)
exec-redo_example =
    exec-redo drawn shifted 2000 3000 4000 (some (to_hex first_id)) drawn_again-IsAhead shifts
      first_id PropKey.x (PropValue.num default_opacity) one_valid (λ h. cc h) shifted_x

one_live : length (live drawn.document) ≡ 1
unfolding drawing_program
one_live = refl

drawn_once-IsAhead : IsAhead drawn (length (live drawn.document))
unfolding live Map.values open_board Document.new
drawn_once-IsAhead =
    subst (IsAhead drawn) (sym one_live)
      (exec-IsAhead fresh 1000 1 (fresh-IsAhead 10 (omega arith)) placed)

drawn-IsSound : IsSound board drawn
drawn-IsSound =
    Reachable-IsSound board 1 drawn
      (Reachable.stepped fresh _ Reachable.opened (Step.executed fresh placed 1000))

exec-clear_example : live (exec drawn Command.clear 2000).0.document ≡ []
exec-clear_example = exec-clear drawn 2000 drawn-IsSound.formed drawn_once-IsAhead
