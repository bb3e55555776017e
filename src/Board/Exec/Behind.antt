-- ===== src/Board/Exec/Behind.antt =====
-- The document stays at or behind the clock: crates/kboard-ffi/src/board.rs, `exec`.
use k_board.Common.{ℕ, ◌+◌, ◌≤◌, List, [], ◌∷◌, map, length, arith}
use k_board.Common.Text.{Str}
use k_board.Clock.{u32_max}
use k_board.Element.{ElementId}
use k_board.Document.{live, z_index_for_top}
use k_board.Op
use k_board.Op.{StampedOp}
use k_board.Op.Replay.{replay}
use k_board.Board.{Board, Reversal, stamp_all, writes, mint_id, record_change, record_ops}
use k_board.Board.Replay.{IsBehind, stamp_all_lem}
use k_board.Board.Command.{Command}
use k_board.Board.Exec.{Assigned, Ran, create, revise, erase, erase_all, exec, key_text}
use k_board.Board.Exec.Cases.{exec_cases, most_props}
use k_board.Board.Exec.Undo.{upsert-stamp_all, delete_each-stamp_all, length-writes, length-map}

-- The clock of a board is at or above every stamp in the document, and has room for some ticks.
pub record IsAhead (b : Board) (n : ℕ) : Type 0 where
  pub behind : IsBehind b.document b.clock.last
  pub room : b.clock.last.counter + n ≤ u32_max

-- The ticks that a command takes at most.
abbrev pub ticks : Board → ℕ
ticks b = most_props + length (live b.document)

module _ (b : Board) (now n : ℕ) (ahead : IsAhead b (ticks b + n)) where
  abbrev Stays : Ran → Type 0
  Stays ran = IsAhead ran.0 n

  stamped :
      (rs : List Reversal)
      → length rs ≤ ticks b
      → let (clock, ops) = stamp_all b.clock rs now in
        IsBehind (replay b.document ops) clock.last × (clock.last.counter + n ≤ u32_max)
  stamped rs short =
      let (behind, spent, _) =
        stamp_all_lem b.document b.clock rs now ahead.behind (omega (arith, ahead.room)) in
      (behind, omega (arith, spent, ahead.room))

  create-Stays :
      (assigned : Str → Assigned)
      → ((z : Str) → length (assigned z) ≤ most_props)
      → Stays (create b assigned now)
  unfolding create mint_id record_change record_ops
  create-Stays assigned short =
      let (minted, id) = mint_id b in
      let props = assigned (key_text (z_index_for_top b.document)) in
      let short' = short (key_text (z_index_for_top b.document)) in
      let s = stamped (writes id props) (omega (arith, length-writes id props, short')) in
      rw (upsert-stamp_all id props b.clock now) (record { behind = s.0; room = s.1 })

  revise-Stays :
      (id : Str) (element : ElementId) (props : Assigned)
      → length props ≤ most_props
      → Stays (revise b id element props now)
  unfolding revise record_change record_ops
  revise-Stays id element props short =
      let s = stamped (writes element props) (omega (arith, length-writes element props)) in
      rw (upsert-stamp_all element props b.clock now) (record { behind = s.0; room = s.1 })

  erase-Stays : (id : Str) (element : ElementId) → Stays (erase b id element now)
  unfolding erase stamp_all record_change record_ops
  erase-Stays id element =
      let s = stamped (Reversal.delete element ∷ []) (omega arith) in
      record { behind = s.0; room = s.1 }

  erase_all-Stays : Stays (erase_all b now)
  unfolding erase_all Op.clear record_change record_ops
  erase_all-Stays =
      let es = live b.document in
      let ids = map (λ e. e.id) es in
      let s =
        stamped (map Reversal.delete ids)
          (omega (arith, length-map Reversal.delete ids, length-map (λ e. e.id) es)) in
      rw (delete_each-stamp_all es b.clock now) (record { behind = s.0; room = s.1 })

  -- Where no stamp of the document is above the clock, and the counter has room for nine ticks, one
  -- for each live element, and n more, no stamp is above the clock after any command, and the counter
  -- has room for n more ticks.
  pub exec-IsAhead : (command : Command) → IsAhead (exec b command now).0 n
  exec-IsAhead command =
      exec_cases b now Stays
        (λ e. record { behind = ahead.behind; room = omega (arith, ahead.room) }) create-Stays
        revise-Stays erase-Stays erase_all-Stays command
