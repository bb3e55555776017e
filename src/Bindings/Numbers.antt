-- ===== src/Bindings/Numbers.antt =====
-- How the handles of a host are numbered: crates/kboard-ffi/src/lib.rs, `kb_open` and `kb_close`.
use k_board.Common.{
  ℕ, suc, ◌+◌, ◌%◌, ◌^◌, ◌≤◌, ◌<◌, List, [], ◌∷◌, Option, none, some, length, ◌≡◌, ◌↔◌, refl, ap,
  sym, subst, ◌∙◌, arith, Bool-cases, Option-cases, inl, inr,
}
use k_board.Common.Order.{nat_ord, equals, equals_self, same_of_equals}
use k_board.Common.Map
use k_board.Common.Map.{Map, IsSorted}
use k_board.Common.Map.Laws.{lookup-insert, insert-IsSorted, lookup-remove}
use k_board.Common.Text.{Str}
use k_board.Clock.{ActorId}
use k_board.Board.{open_board}
use k_board.Bindings.{
  status_no_board, Host, HostJson, started, borrow_str, opened, kb_open, kb_close,
}
use k_board.Bindings.Hosted.{Call, run, handle_of, run_all}
use k_board.Bindings.Handles.{insert_apart, IsLocal, run-IsLocal}

-- No more handles were given out than a number, and only those hold a board.
record IsNumbered (host : Host) (n : ℕ) : Type 0 where
  pub sorted : IsSorted host.registry.boards
  pub few : host.registry.next_handle ≤ n
  pub unused : (j : ℕ) → host.registry.next_handle < j → Map.lookup j host.registry.boards ≡ none

opened-IsNumbered :
    (host : Host) (n : ℕ) (actor : ActorId) (scope : Option Str)
    → n + 1 < 2 ^ 32
    → IsNumbered host n
    → IsNumbered (opened host actor scope).0 (n + 1)
opened-IsNumbered host n actor none small num = record {
  sorted = num.sorted;
  few = omega (arith, num.few);
  unused = num.unused;
}
opened-IsNumbered host n actor (some scope) small num =
    let next = host.registry.next_handle in
    let exact : (next + 1) % 2 ^ 32 ≡ next + 1 = omega (arith, small, num.few) in
    record {
      sorted = insert-IsSorted _ _ host.registry.boards num.sorted;
      few = omega (arith, exact, num.few);
      unused = λ j above.
          insert_apart host.registry.boards _ j _ (λ e. omega (arith, above, e))
          ∙ num.unused j (omega (arith, above, exact));
    }

local-IsNumbered :
    (host next : Host) (handle n : ℕ)
    → IsLocal host next handle
    → IsNumbered host n
    → IsNumbered next (n + 1)
local-IsNumbered host next handle n local num = record {
  sorted = local.sorted;
  few = omega (arith, local.same_next, num.few);
  unused = λ j above.
      let was : Map.lookup j host.registry.boards ≡ none =
        num.unused j (omega (arith, above, local.same_next)) in
      elim (Bool-cases (equals j handle)) [
        | inl here ↦
            let e = same_of_equals j handle here in
            ap (λ i. Map.lookup i next.registry.boards) e
            ∙ local.absent (ap (λ i. Map.lookup i host.registry.boards) (sym e) ∙ was)
        | inr there ↦ local.apart j (λ e. cc (there, e, equals_self j)) ∙ was
      ];
}

run-IsNumbered :
    (json : HostJson) (host : Host) (call : Call) (n : ℕ)
    → n + 1 < 2 ^ 32
    → IsNumbered host n
    → IsNumbered (run json host call).0 (n + 1)
run-IsNumbered json host call n small num = elim (run-IsLocal json host call num.sorted) [
  | inl (scope, actor, e, same) ↦
      subst (λ h. IsNumbered h (n + 1)) (sym e) (opened-IsNumbered host n actor scope small num)
  | inr local ↦ local-IsNumbered host _ (handle_of host call) n local num
]

run_all-IsNumbered :
    (json : HostJson) (host : Host) (calls : List Call) (n : ℕ)
    → n + length calls < 2 ^ 32
    → IsNumbered host n
    → IsNumbered (run_all json host calls) (n + length calls)
unfolding run_all
run_all-IsNumbered json host [] n small num = record {
  sorted = num.sorted;
  few = omega (arith, num.few);
  unused = num.unused;
}
run_all-IsNumbered json host (call ∷ calls) n small num =
    let sum : n + 1 + length calls ≡ n + suc (length calls) = omega arith in
    subst (IsNumbered (run_all json (run json host call).0 calls)) sum (
      run_all-IsNumbered json (run json host call).0 calls (n + 1) (omega (arith, small))
        (run-IsNumbered json host call n (omega (arith, small)) num))

started-IsNumbered : IsNumbered started 0
unfolding Map.lookup
started-IsNumbered = record { sorted = tt; few = omega arith; unused = λ j above. refl }

-- After any calls, fewer than the handles that there are, `kb_open` with a string gives a handle that
-- is not zero and that no open board has, and the board under it is a new one of the scope and actor.
pub kb_open_lem :
    (json : HostJson) (calls : List Call) (bytes : Option (List ℕ)) (scope : Str) (actor : ActorId)
    → length calls + 1 < 2 ^ 32
    → borrow_str bytes ≡ some scope
    → let host = run_all json started calls in
      let (host', handle) = kb_open host bytes actor in
      (0 < handle)
      × (Map.lookup handle host.registry.boards ≡ none)
      × (Map.lookup handle host'.registry.boards ≡ some (open_board scope actor))
unfolding kb_open
kb_open_lem json calls bytes scope actor small read =
    let host = run_all json started calls in
    let num = run_all-IsNumbered json started calls 0 (omega (arith, small)) started-IsNumbered in
    let next = host.registry.next_handle in
    let exact : (next + 1) % 2 ^ 32 ≡ next + 1 = omega (arith, small, num.few) in
    rw read (
      omega (arith, exact),
      num.unused ((next + 1) % 2 ^ 32) (omega (arith, exact)),
      ground (
        arith,
        lookup-insert ((next + 1) % 2 ^ 32) ((next + 1) % 2 ^ 32) (open_board scope actor)
            host.registry.boards,
        equals_self ((next + 1) % 2 ^ 32),
      ),
    )

-- A board is closed at most once: `kb_close` answers that there is no board exactly where there is
-- none, and after it there is none under the handle.
pub kb_close_lem :
    (host : Host) (handle : ℕ)
    → IsSorted host.registry.boards
    → let (host', status) = kb_close host handle in
      ((status ≡ status_no_board) ↔ (Map.lookup handle host.registry.boards ≡ none))
      × (Map.lookup handle host'.registry.boards ≡ none)
      × ((kb_close host' handle).1 ≡ status_no_board)
unfolding kb_close
kb_close_lem host handle sorted = elim (Option-cases (Map.lookup handle host.registry.boards)) [
  | inl absent ↦ ground (arith, absent)
  | inr (b, present) ↦
      let gone : Map.lookup handle (Map.remove handle host.registry.boards) ≡ none =
        ground
          (arith, lookup-remove handle handle host.registry.boards sorted, equals_self handle) in
      ground (arith, present, gone)
]
