-- ===== src/Bindings/Hosted.antt =====
-- The boards of a host, whatever it calls: crates/kboard-ffi/src/lib.rs.
use k_board.Common.{
  ℕ, ◌+◌, ◌%◌, ◌^◌, Bool, List, [], ◌∷◌, Option, none, some, ◌≡◌, refl, ap, sym, subst, ◌∙◌, arith,
  Bool-cases, inl, inr,
}
use k_board.Common.Order.{nat_ord, equals, same_of_equals}
use k_board.Common.Map
use k_board.Common.Map.{Map, IsSorted}
use k_board.Common.Map.Laws.{lookup-insert, insert-IsSorted, lookup-remove, remove-IsSorted}
use k_board.Common.Float.{F64}
use k_board.Common.Text.{Str}
use k_board.Clock.{ActorId}
use k_board.Document.{Document, ScopeId, Merged}
use k_board.Document.Invariant.{IsWellFormed}
use k_board.Board.{Board, open_board, undo, redo, merge_ops, merge_document, take_pending}
use k_board.Board.Command.{Checked}
use k_board.Board.Exec.{exec}
use k_board.Board.Reach
use k_board.Board.Reach.{IsSound, Reachable-IsSound}
use k_board.Bindings.{
  Host, HostJson, borrow_str, parsed, milliseconds, opened, closed, Called, published, kept,
  on_board, on_input, executed, tallied, printed, loaded, moved, told, kb_open, kb_close, kb_exec,
  kb_merge, kb_pending, kb_load, kb_undo, kb_redo, kb_history, kb_scene,
}

-- The calls of a host that change something, or read a board.
pub data Call : Type 0 where
  opens : Option (List ℕ) → ActorId → Call
  closes sends shows lists : ℕ → Call
  executes : ℕ → Option (List ℕ) → F64 → Call
  merges loads : ℕ → Option (List ℕ) → Call
  undoes redoes : ℕ → F64 → Call

abbrev pub run : HostJson → Host → Call → Host × ℕ
run json host (Call.opens scope actor) = kb_open host scope actor
run json host (Call.closes handle) = kb_close host handle
run json host (Call.sends handle) = kb_pending json host handle
run json host (Call.shows handle) = kb_scene json host handle
run json host (Call.lists handle) = kb_history host handle
run json host (Call.executes handle input now_ms) = kb_exec json host handle input now_ms
run json host (Call.merges handle input) = kb_merge json host handle input
run json host (Call.loads handle input) = kb_load json host handle input
run json host (Call.undoes handle now_ms) = kb_undo host handle now_ms
run json host (Call.redoes handle now_ms) = kb_redo host handle now_ms

-- The handle that a call is about.
abbrev pub handle_of : Host → Call → ℕ
handle_of host (Call.opens scope actor) = (host.registry.next_handle + 1) % 2 ^ 32
handle_of host (Call.closes handle) = handle
handle_of host (Call.sends handle) = handle
handle_of host (Call.shows handle) = handle
handle_of host (Call.lists handle) = handle
handle_of host (Call.executes handle input now_ms) = handle
handle_of host (Call.merges handle input) = handle
handle_of host (Call.loads handle input) = handle
handle_of host (Call.undoes handle now_ms) = handle
handle_of host (Call.redoes handle now_ms) = handle

-- A document that a call loads, where its text is that of one, is well-formed.
abbrev pub LoadsWell : HostJson → Call → Type 0
LoadsWell json (Call.loads handle input) =
    (d : Document) → parsed json.document (borrow_str input) ≡ some d → IsWellFormed d
LoadsWell json _ = Unit

-- The host after some calls, the first call first.
unfoldable pub run_all : HostJson → Host → List Call → Host
run_all json host [] = host
run_all json host (call ∷ calls) = run_all json (run json host call).0 calls

pub boards_published :
    (host : Host) (bytes : Option Str) → (published host bytes).registry ≡ host.registry
boards_published host none = refl
boards_published host (some bytes) = refl

pub boards_kept :
    (host : Host) (handle : ℕ) (c : Called)
    → (kept host handle c).0.registry.boards ≡ Map.insert handle c.0 host.registry.boards
boards_kept host handle (b, bytes, status) = ap (λ r. r.boards) (boards_published _ bytes)

executed_board : (r : Board × Checked (Option Str)) → (executed r).0 ≡ r.0
executed_board (b, Checked.ok id) = refl
executed_board (b, Checked.err e) = refl

loaded_board : (r : Board × Merged Bool) → (loaded r).0 ≡ r.0
loaded_board (b, Merged.ok changed) = refl
loaded_board (b, Merged.err e) = refl

printed_board : (b : Board) (bytes : Option Str) → (printed b bytes).0 ≡ b
printed_board b none = refl
printed_board b (some bytes) = refl

-- What is known of a board under a handle besides, for the scope and the actor that it was opened
-- with.
module _ (O : ℕ → ScopeId → ActorId → Type 0) where
  -- A board that was opened and was only operated on.
  abbrev pub Reached : ℕ → Board → Type 0
  Reached handle b =
      (scope : ScopeId) × (actor : ActorId) × O handle scope actor × Reach.Reachable scope actor b

  pub record IsHosted (host : Host) : Type 0 where
    pub sorted : IsSorted host.registry.boards
    pub reached :
        (handle : ℕ) (b : Board)
        → Map.lookup handle host.registry.boards ≡ some b
        → Reached handle b

  -- A board is put under a handle.
  put-IsHosted :
      (host next : Host) (handle : ℕ) (b : Board)
      → next.registry.boards ≡ Map.insert handle b host.registry.boards
      → Reached handle b
      → IsHosted host
      → IsHosted next
  put-IsHosted host next handle b e own hosted = record {
    sorted = subst IsSorted (sym e) (insert-IsSorted handle b host.registry.boards hosted.sorted);
    reached = λ j c h.
        let found : Map.lookup j (Map.insert handle b host.registry.boards) ≡ some c =
          ap (Map.lookup j) (sym e) ∙ h in
        elim (Bool-cases (equals j handle)) [
          | inl here ↦
              let same : b ≡ c =
                cc (rw here at (lookup-insert j handle b host.registry.boards), found) in
              subst (λ x. Reached j x) same
                (subst (λ n. Reached n b) (sym (same_of_equals j handle here)) own)
          | inr there ↦
              hosted.reached j c
                (sym (rw there at (lookup-insert j handle b host.registry.boards)) ∙ found)
        ];
  }

  module _ (host : Host) (handle : ℕ) (hosted : IsHosted host) where
    on_board-IsHosted :
        (call : Board → Called) (found : Option Board)
        → Map.lookup handle host.registry.boards ≡ found
        → ((b : Board) → Reached handle b → Reached handle (call b).0)
        → IsHosted (on_board host handle call found).0
    on_board-IsHosted call none e f = hosted
    on_board-IsHosted call (some b) e f =
        put-IsHosted host _ handle (call b).0 (boards_kept host handle (call b))
          (f b (hosted.reached handle b e)) hosted

    on_input-IsHosted :
        {A : Type 0}
        → (call : A → Board → Called) (input : Option A)
        → ((a : A) → input ≡ some a → (b : Board) → Reached handle b → Reached handle (call a b).0)
        → IsHosted (on_input host handle call input).0
    on_input-IsHosted call none f = hosted
    on_input-IsHosted call (some a) f =
        on_board-IsHosted (call a) (Map.lookup handle host.registry.boards) refl (f a refl)

    closed-IsHosted : (found : Option Board) → IsHosted (closed host handle found).0
    closed-IsHosted none = hosted
    closed-IsHosted (some b) = record {
      sorted = remove-IsSorted handle host.registry.boards hosted.sorted;
      reached = λ j c h.
          hosted.reached j c
            (ground (arith, h, lookup-remove j handle host.registry.boards hosted.sorted));
    }

  opened-IsHosted :
      (host : Host) (actor : ActorId) (scope : Option Str)
      → ((name : Str) → scope ≡ some name → O ((host.registry.next_handle + 1) % 2 ^ 32) name actor)
      → IsHosted host
      → IsHosted (opened host actor scope).0
  opened-IsHosted host actor none fresh hosted = hosted
  opened-IsHosted host actor (some scope) fresh hosted =
      put-IsHosted host _ _ (open_board scope actor) refl
        (scope, actor, fresh scope refl, Reach.Reachable.opened) hosted

  after_step : (handle : ℕ) (b c : Board) → Reach.Step b c → Reached handle b → Reached handle c
  after_step handle b c step (scope, actor, origin, r) =
      (scope, actor, origin, Reach.Reachable.stepped b c r step)

  module _ (json : HostJson) where
    pub run-IsHosted :
        (host : Host) (call : Call)
        → ((input : Option (List ℕ)) (actor : ActorId) (scope : ScopeId)
            → call ≡ Call.opens input actor
            → borrow_str input ≡ some scope
            → O ((host.registry.next_handle + 1) % 2 ^ 32) scope actor)
        → LoadsWell json call
        → IsHosted host
        → IsHosted (run json host call).0
    unfolding kb_open kb_close kb_exec kb_merge kb_pending kb_load kb_undo kb_redo kb_history
        kb_scene
    run-IsHosted host (Call.opens input actor) fresh well h =
        opened-IsHosted host actor (borrow_str input) (λ scope e. fresh input actor scope refl e) h
    run-IsHosted host (Call.closes handle) fresh well h =
        closed-IsHosted host handle h (Map.lookup handle host.registry.boards)
    run-IsHosted host (Call.sends handle) fresh well h =
        on_board-IsHosted host handle h _ (Map.lookup handle host.registry.boards) refl (λ b r.
          subst (Reached handle) (sym (printed_board (take_pending b).0 _))
            (after_step handle b _ (Reach.Step.sent b) r))
    run-IsHosted host (Call.shows handle) fresh well h =
        on_board-IsHosted host handle h _ (Map.lookup handle host.registry.boards) refl
          (λ b r. subst (Reached handle) (sym (printed_board b _)) r)
    run-IsHosted host (Call.lists handle) fresh well h =
        on_board-IsHosted host handle h told (Map.lookup handle host.registry.boards) refl
          (λ b r. r)
    run-IsHosted host (Call.executes handle input now_ms) fresh well h =
        on_input-IsHosted host handle h _ (parsed json.command (borrow_str input)) (λ command e b r.
          subst (Reached handle) (sym (executed_board (exec b command (milliseconds now_ms))))
            (after_step handle b _ (Reach.Step.executed b command (milliseconds now_ms)) r))
    run-IsHosted host (Call.merges handle input) fresh well h =
        on_input-IsHosted host handle h (λ ops b. tallied (merge_ops b ops))
          (parsed json.ops (borrow_str input))
          (λ ops e b r. after_step handle b _ (Reach.Step.took_ops b ops) r)
    run-IsHosted host (Call.loads handle input) fresh well h =
        on_input-IsHosted host handle h _ (parsed json.document (borrow_str input)) (λ d e b r.
          subst (Reached handle) (sym (loaded_board (merge_document b d)))
            (after_step handle b _ (Reach.Step.took_document b d (well d e)) r))
    run-IsHosted host (Call.undoes handle now_ms) fresh well h =
        on_board-IsHosted host handle h (λ b. moved (undo b (milliseconds now_ms)))
          (Map.lookup handle host.registry.boards) refl
          (λ b r. after_step handle b _ (Reach.Step.undid b (milliseconds now_ms)) r)
    run-IsHosted host (Call.redoes handle now_ms) fresh well h =
        on_board-IsHosted host handle h (λ b. moved (redo b (milliseconds now_ms)))
          (Map.lookup handle host.registry.boards) refl
          (λ b r. after_step handle b _ (Reach.Step.redid b (milliseconds now_ms)) r)
