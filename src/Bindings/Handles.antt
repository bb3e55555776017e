-- ===== src/Bindings/Handles.antt =====
-- The handles of a host: crates/kboard-ffi/src/lib.rs, `kb_open`, `kb_close` and the registry.
use k_board.Common.{
  ℕ, ◌+◌, ◌%◌, ◌^◌, false, Option, none, some, ◌≡◌, ◌≢◌, ◌⊎◌, refl, ap, sym, subst, ◌∙◌, arith, inl,
  inr,
}
use k_board.Common.Order.{nat_ord, equals, equals_self, same_of_equals}
use k_board.Common.Map
use k_board.Common.Map.{Map, IsSorted}
use k_board.Common.Map.Laws.{lookup-insert, insert-IsSorted, lookup-remove, remove-IsSorted}
use k_board.Common.Text.{Str}
use k_board.Clock.{ActorId}
use k_board.Board.{Board, undo, redo, merge_ops}
use k_board.Bindings.{
  Host, HostJson, borrow_str, parsed, opened, closed, told, tallied, moved, milliseconds, Called,
  kept, on_board, on_input, kb_open, kb_close, kb_exec, kb_merge, kb_pending, kb_load, kb_undo,
  kb_redo, kb_history, kb_scene,
}
use k_board.Bindings.Hosted.{Call, run, handle_of, boards_kept, boards_published}

unequal : (a b : ℕ) → a ≢ b → equals a b ≡ false
unequal a b n = ground (arith, n, same_of_equals a b)

pub insert_apart :
    (m : Map ℕ Board) (h j : ℕ) (b : Board)
    → j ≢ h
    → Map.lookup j (Map.insert h b m) ≡ Map.lookup j m
insert_apart m h j b n = ground (arith, lookup-insert j h b m, unequal j h n)

-- What a call may do to the handles: only that of the call is touched, and it is not given out.
pub record IsLocal (host next : Host) (handle : ℕ) : Type 0 where
  pub sorted : IsSorted next.registry.boards
  pub same_next : next.registry.next_handle ≡ host.registry.next_handle
  pub apart :
      (j : ℕ) → j ≢ handle → Map.lookup j next.registry.boards ≡ Map.lookup j host.registry.boards
  pub absent :
      Map.lookup handle host.registry.boards ≡ none → Map.lookup handle next.registry.boards ≡ none

module _ (host : Host) (handle : ℕ) (sorted : IsSorted host.registry.boards) where
  untouched : IsLocal host host handle
  untouched = record { sorted = sorted; same_next = refl; apart = λ j n. refl; absent = λ h. h }

  next_kept : (c : Called) → (kept host handle c).0.registry.next_handle ≡ host.registry.next_handle
  next_kept (b, bytes, status) = ap (λ r. r.next_handle) (boards_published _ bytes)

  on_board-IsLocal :
      (call : Board → Called) (found : Option Board)
      → Map.lookup handle host.registry.boards ≡ found
      → IsLocal host (on_board host handle call found).0 handle
  on_board-IsLocal call none e = untouched
  on_board-IsLocal call (some b) e =
      let boards = boards_kept host handle (call b) in
      record {
        sorted =
            subst IsSorted (sym boards)
              (insert-IsSorted handle (call b).0 host.registry.boards sorted);
        same_next = next_kept (call b);
        apart = λ j n.
            ap (Map.lookup j) boards ∙ insert_apart host.registry.boards handle j (call b).0 n;
        absent = λ h. cc (h, e);
      }

  on_input-IsLocal :
      {A : Type 0}
      → (call : A → Board → Called) (input : Option A)
      → IsLocal host (on_input host handle call input).0 handle
  on_input-IsLocal call none = untouched
  on_input-IsLocal call (some a) =
      on_board-IsLocal (call a) (Map.lookup handle host.registry.boards) refl

  closed-IsLocal : (found : Option Board) → IsLocal host (closed host handle found).0 handle
  closed-IsLocal none = untouched
  closed-IsLocal (some b) = record {
    sorted = remove-IsSorted handle host.registry.boards sorted;
    same_next = refl;
    apart = λ j n.
        ground (arith, lookup-remove j handle host.registry.boards sorted, unequal j handle n);
    absent = λ h.
        ground (arith, lookup-remove handle handle host.registry.boards sorted, equals_self handle);
  }

pub opened_apart :
    (host : Host) (actor : ActorId) (scope : Option Str) (j : ℕ)
    → j ≢ (host.registry.next_handle + 1) % 2 ^ 32
    → Map.lookup j (opened host actor scope).0.registry.boards ≡ Map.lookup j host.registry.boards
opened_apart host actor none j n = refl
opened_apart host actor (some scope) j n = insert_apart host.registry.boards _ j _ n

-- Whether a call is `kb_open`, or what it does to the handles.
pub run-IsLocal :
    (json : HostJson) (host : Host) (call : Call)
    → IsSorted host.registry.boards
    → ((scope : Option Str) × (actor : ActorId) × ((run json host call).0
          ≡ (opened host actor scope).0)
        × (handle_of host call ≡ (host.registry.next_handle + 1) % 2 ^ 32))
      ⊎ IsLocal host (run json host call).0 (handle_of host call)
unfolding kb_open kb_close kb_exec kb_merge kb_pending kb_load kb_undo kb_redo kb_history kb_scene
run-IsLocal json host (Call.opens scope actor) s = inl (borrow_str scope, actor, refl, refl)
run-IsLocal json host (Call.closes h) s =
    inr (closed-IsLocal host h s (Map.lookup h host.registry.boards))
run-IsLocal json host (Call.sends h) s =
    inr (on_board-IsLocal host h s _ (Map.lookup h host.registry.boards) refl)
run-IsLocal json host (Call.shows h) s =
    inr (on_board-IsLocal host h s _ (Map.lookup h host.registry.boards) refl)
run-IsLocal json host (Call.lists h) s =
    inr (on_board-IsLocal host h s told (Map.lookup h host.registry.boards) refl)
run-IsLocal json host (Call.executes h input now_ms) s =
    inr (on_input-IsLocal host h s _ (parsed json.command (borrow_str input)))
run-IsLocal json host (Call.merges h input) s = inr (
    on_input-IsLocal host h s (λ ops b. tallied (merge_ops b ops))
      (parsed json.ops (borrow_str input)))
run-IsLocal json host (Call.loads h input) s =
    inr (on_input-IsLocal host h s _ (parsed json.document (borrow_str input)))
run-IsLocal json host (Call.undoes h now_ms) s = inr (
    on_board-IsLocal host h s (λ b. moved (undo b (milliseconds now_ms)))
      (Map.lookup h host.registry.boards) refl)
run-IsLocal json host (Call.redoes h now_ms) s = inr (
    on_board-IsLocal host h s (λ b. moved (redo b (milliseconds now_ms)))
      (Map.lookup h host.registry.boards) refl)

-- A call leaves the boards under all other handles as they were.
pub run-lookup :
    (json : HostJson) (host : Host) (call : Call) (j : ℕ)
    → IsSorted host.registry.boards
    → j ≢ handle_of host call
    → Map.lookup j (run json host call).0.registry.boards ≡ Map.lookup j host.registry.boards
run-lookup json host call j sorted apart = elim (run-IsLocal json host call sorted) [
  | inl (scope, actor, e, same) ↦
      ap (λ h. Map.lookup j h.registry.boards) e
      ∙ opened_apart host actor scope j (λ h. apart (h ∙ sym same))
  | inr local ↦ local.apart j apart
]
