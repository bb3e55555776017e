-- ===== src/Bindings.antt =====
-- The functions that a host calls: crates/kboard-ffi/src/lib.rs. A pointer and a length are the bytes
-- that they describe, or nothing for a null pointer. The buffer of results is the calling thread's.
-- The lock on the registry is held for the whole of each call. The JSON is serde_json's: it is an
-- argument. No function of the model panics, so that no call returns `STATUS_PANIC`.
pub mod Hosted
pub mod Sound
pub mod Handles
pub mod Numbers
use k_board.Common.{
  ℕ, zero, suc, ◌+◌, ◌/◌, ◌%◌, ◌^◌, ◌-◌, min, Bool, true, false, ◌&&◌, not, ltb, List, [], ◌∷◌,
  ◌++◌, Option, none, some, unwrap_or, if◌then◌else◌,
}
use k_board.Common.Order.{nat_ord}
use k_board.Common.Map
use k_board.Common.Map.{Map}
use k_board.Common.Float.{F64, is_finite}
use k_board.Common.Float.Arith.{less, units}
use k_board.Common.Text.{Str, ascii, from_utf8}
use k_board.Document.{Document, Merged}
use k_board.Op.{StampedOp}
use k_board.Board.{Board, Change, open_board, undo, redo, merge_ops, merge_document, take_pending}
use k_board.Board.Command.{Command, Checked}
use k_board.Board.Exec.{exec}
use k_board.Board.Scene.{SceneItem, scene}

abbrev pub status_ok : ℕ
status_ok = 0

abbrev pub status_bad_input : ℕ
status_bad_input = 2

abbrev pub status_no_board : ℕ
status_no_board = 3

abbrev pub status_refused : ℕ
status_refused = 4

-- `next_handle` is a `u32`.
pub record Registry : Type 0 where
  pub boards : Map ℕ Board
  pub next_handle : ℕ

-- The registry, and the bytes of the last result.
pub record Host : Type 0 where
  pub registry : Registry
  pub last : Str

abbrev pub started : Host
started = record { registry = record { boards = []; next_handle = 0 }; last = [] }

-- What serde_json does.
pub record HostJson : Type 0 where
  pub command : Str → Option Command
  pub ops : Str → Option (List StampedOp)
  pub document : Str → Option Document
  pub print_ops : List StampedOp → Option Str
  pub print_scene : List SceneItem → Option Str

-- `borrow_str`.
abbrev pub borrow_str : Option (List ℕ) → Option Str
borrow_str none = none
borrow_str (some bytes) = from_utf8 bytes

abbrev pub parsed : {A : Type 0} → (Str → Option A) → Option Str → Option A
parsed parse none = none
parsed parse (some text) = parse text

-- `to_string` of a `usize` and of a `bool`.
unfoldable pub digits_onto : ℕ → ℕ → Str → Str
digits_onto zero n digits = digits
digits_onto (suc fuel) n digits =
    if ltb n 10 then (b'0' + n) ∷ digits else digits_onto fuel (n / 10) ((b'0' + n % 10) ∷ digits)

abbrev pub decimal : ℕ → Str
decimal n = digits_onto (suc n) n []

abbrev pub truth : Bool → Str
truth true = ascii "true"
truth false = ascii "false"

-- `now_ms as u64`, which truncates and saturates, where the time is finite and above zero.
unfoldable pub milliseconds : F64 → ℕ
milliseconds now_ms =
    if is_finite now_ms && less 0 now_ms then min (units now_ms / 2 ^ 1074) (2 ^ 64 - 1) else 0

-- `kb_open`: the handle is also what is returned, and 0 on failure.
abbrev pub opened : Host → ℕ → Option Str → Host × ℕ
opened host actor none = (host, 0)
opened host actor (some scope) =
    let handle : ℕ = (host.registry.next_handle + 1) % 2 ^ 32 in
    (
      record host {
        registry = record {
          boards = Map.insert handle (open_board scope actor) host.registry.boards;
          next_handle = handle;
        };
      },
      handle,
    )

unfoldable pub kb_open : Host → Option (List ℕ) → ℕ → Host × ℕ
kb_open host scope actor = opened host actor (borrow_str scope)

abbrev pub closed : Host → ℕ → Option Board → Host × ℕ
closed host handle none = (host, status_no_board)
closed host handle (some b) = (
  record host {
    registry = record host.registry { boards = Map.remove handle host.registry.boards };
  },
  status_ok,
)

unfoldable pub kb_close : Host → ℕ → Host × ℕ
kb_close host handle = closed host handle (Map.lookup handle host.registry.boards)

-- What a call does to its board: the board afterwards, what is published, if anything is, and the
-- status.
abbrev pub Called : Type 0
Called = Board × Option Str × ℕ

abbrev pub published : Host → Option Str → Host
published host none = host
published host (some bytes) = record host { last = bytes }

abbrev pub kept : Host → ℕ → Called → Host × ℕ
kept host handle (b, bytes, status) = (
  published
      (record host {
        registry = record host.registry { boards = Map.insert handle b host.registry.boards };
      })
      bytes,
  status,
)

-- `get_mut`, and `get`, with what follows them.
abbrev pub on_board : Host → ℕ → (Board → Called) → Option Board → Host × ℕ
on_board host handle call none = (host, status_no_board)
on_board host handle call (some b) = kept host handle (call b)

abbrev pub with_board : Host → ℕ → (Board → Called) → Host × ℕ
with_board host handle call = on_board host handle call (Map.lookup handle host.registry.boards)

-- `let Ok(input) = … else { return STATUS_BAD_INPUT }`.
abbrev pub on_input : {A : Type 0} → Host → ℕ → (A → Board → Called) → Option A → Host × ℕ
on_input host handle call none = (host, status_bad_input)
on_input host handle call (some input) = with_board host handle (call input)

abbrev pub executed : Board × Checked (Option Str) → Called
executed (b, Checked.ok id) = (b, some (unwrap_or [] id), status_ok)
executed (b, Checked.err e) = (b, none, status_refused)

unfoldable pub kb_exec : HostJson → Host → ℕ → Option (List ℕ) → F64 → Host × ℕ
kb_exec json host handle input now_ms =
    on_input host handle (λ command b. executed (exec b command (milliseconds now_ms)))
      (parsed json.command (borrow_str input))

abbrev pub tallied : Board × ℕ → Called
tallied (b, changed) = (b, some (decimal changed), status_ok)

unfoldable pub kb_merge : HostJson → Host → ℕ → Option (List ℕ) → Host × ℕ
kb_merge json host handle input =
    on_input host handle (λ ops b. tallied (merge_ops b ops)) (parsed json.ops (borrow_str input))

abbrev pub printed : Board → Option Str → Called
printed b none = (b, none, status_refused)
printed b (some bytes) = (b, some bytes, status_ok)

unfoldable pub kb_pending : HostJson → Host → ℕ → Host × ℕ
kb_pending json host handle =
    with_board host handle
      (λ b. let (b', pending) = take_pending b in printed b' (json.print_ops pending))

abbrev pub loaded : Board × Merged Bool → Called
loaded (b, Merged.ok changed) = (b, some (truth changed), status_ok)
loaded (b, Merged.err e) = (b, none, status_refused)

unfoldable pub kb_load : HostJson → Host → ℕ → Option (List ℕ) → Host × ℕ
kb_load json host handle input =
    on_input host handle (λ incoming b. loaded (merge_document b incoming))
      (parsed json.document (borrow_str input))

abbrev pub moved : Board × Bool → Called
moved (b, did) = (b, some (truth did), status_ok)

-- `step`, as `kb_undo` and `kb_redo` call it.
unfoldable pub kb_undo : Host → ℕ → F64 → Host × ℕ
kb_undo host handle now_ms = with_board host handle (λ b. moved (undo b (milliseconds now_ms)))

unfoldable pub kb_redo : Host → ℕ → F64 → Host × ℕ
kb_redo host handle now_ms = with_board host handle (λ b. moved (redo b (milliseconds now_ms)))

-- `can_undo` and `can_redo`.
abbrev pub is_filled : List Change → Bool
is_filled [] = false
is_filled (c ∷ cs) = true

abbrev pub told : Board → Called
told b = (b, some (truth (is_filled b.undone) ++ b',' ∷ truth (is_filled b.redone)), status_ok)

unfoldable pub kb_history : Host → ℕ → Host × ℕ
kb_history host handle = with_board host handle told

unfoldable pub kb_scene : HostJson → Host → ℕ → Host × ℕ
kb_scene json host handle = with_board host handle (λ b. printed b (json.print_scene (scene b)))
