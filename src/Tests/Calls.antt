-- ===== src/Tests/Calls.antt =====
-- The theorems on the functions that hosts call at concrete inputs: crates/kboard-ffi/src/lib.rs.
use k_board.Common.{◌<◌, List, [], ◌∷◌, some, none, ◌≡◌, subst, refl, arith}
use k_board.Common.Order.{nat_ord, bytes_ord, cmp_bytes}
use k_board.Common.Map
use k_board.Common.Map.{IsSorted}
use k_board.Common.Text.{from_utf8, is_utf8_from}
use k_board.Document
use k_board.Document.{Document, ScopeId}
use k_board.Document.Invariant.{IsWellFormed, new-IsWellFormed}
use k_board.Clock.{ActorId}
use k_board.Board.{Board, open_board, merge_document}
use k_board.Board.Command.{Command}
use k_board.Board.Reach.{IsSound}
use k_board.Bindings.{Host, HostJson, started, kb_open, kb_exec, kb_merge, kb_load}
use k_board.Bindings.Hosted.{Call, run, run_all}
use k_board.Bindings.Sound.{IsOpening, run_all-IsSound}
use k_board.Bindings.Numbers.{kb_open_lem}
use k_board.Bindings.Handles.{run-lookup}
use k_board.Tests.Data.{board, moved}

-- Any text is a clearing, one operation, and an empty document.
abbrev one_json : HostJson
one_json = record {
  command = λ text. some Command.clear;
  ops = λ text. some (moved ∷ []);
  document = λ text. some (Document.new board);
  print_ops = λ ops. none;
  print_scene = λ items. none;
}

abbrev calls : List Call
calls = Call.opens (some board) 1 ∷ Call.undoes 1 0 ∷ []

calls_program : Unit {0}
unfolding run_all kb_open from_utf8 Map.insert Map.lookup nat_ord k_board.Bindings.kb_undo
    k_board.Board.undo open_board is_utf8_from
calls_program = tt

holds : Map.lookup 1 (run_all one_json started calls).registry.boards ≡ some (open_board board 1)
unfolding calls_program
holds = refl

abbrev loading : List Call
loading = Call.opens (some board) 1 ∷ Call.loads 1 (some board) ∷ []

abbrev after_load : Board
after_load = (merge_document (open_board board 1) (Document.new board)).0

loads_well : (d : Document) → some (Document.new board) ≡ some d → IsWellFormed d
loads_well d h =
    let e : Document.new board ≡ d = cc h in subst IsWellFormed e (new-IsWellFormed board)

holds_loaded : Map.lookup 1 (run_all one_json started loading).registry.boards ≡ some after_load
unfolding calls_program k_board.Bindings.kb_load merge_document Document.merge bytes_ord cmp_bytes
    Document.new
holds_loaded = refl

run_all-IsSound_example :
    (scope : ScopeId) × (actor : ActorId) × IsOpening one_json loading 1 scope actor
    × IsSound scope after_load
unfolding calls_program
run_all-IsSound_example =
    run_all-IsSound one_json loading 1 after_load (tt, ((λ d h. loads_well d h), tt)) holds_loaded

reads_board : k_board.Bindings.borrow_str (some board) ≡ some board
unfolding calls_program
reads_board = refl

kb_open_lem_example :
    let host = run_all one_json started calls in
    let (host', handle) = kb_open host (some board) 2 in
    (0 < handle)
    × (Map.lookup handle host.registry.boards ≡ none)
    × (Map.lookup handle host'.registry.boards ≡ some (open_board board 2))
kb_open_lem_example = kb_open_lem one_json calls (some board) board 2 (omega arith) reads_board

one_board : IsSorted (run_all one_json started calls).registry.boards
unfolding calls_program
one_board = (tt, tt)

run-lookup_example :
    Map.lookup 1 (run one_json (run_all one_json started calls) (Call.closes 2)).0.registry.boards
    ≡ Map.lookup 1 (run_all one_json started calls).registry.boards
run-lookup_example =
    run-lookup one_json (run_all one_json started calls) (Call.closes 2) 1 one_board (λ e. cc e)
