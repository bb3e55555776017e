-- ===== src/Bindings/Sound.antt =====
-- The boards of a host are sound, whatever it calls: crates/kboard-ffi/src/lib.rs.
use mathlib.Core.List.{append_assoc}
use k_board.Common.{
  ℕ, ◌+◌, ◌%◌, ◌^◌, List, [], ◌∷◌, Option, some, ◌≡◌, refl, ap, sym, ◌∙◌, ◌++◌, All,
}
use k_board.Common.Order.{nat_ord}
use k_board.Common.Map
use k_board.Common.Map.{Map, IsSorted}
use k_board.Clock.{ActorId}
use k_board.Document.{ScopeId}
use k_board.Board.{Board}
use k_board.Board.Reach.{IsSound, Reachable-IsSound}
use k_board.Bindings.{Host, HostJson, started, borrow_str, opened, kb_open}
use k_board.Bindings.Hosted.{Call, LoadsWell, run, run_all, IsHosted, run-IsHosted}

-- A handle is what some of the calls returned that opened a board, with this scope and actor.
pub record IsOpening (json : HostJson) (calls : List Call) (handle : ℕ) (scope : ScopeId)
    (actor : ActorId) : Type 0 where
  pub before : List Call
  pub after : List Call
  pub input : Option (List ℕ)
  pub split : calls ≡ before ++ Call.opens input actor ∷ after
  pub named : borrow_str input ≡ some scope
  pub returned : (kb_open (run_all json started before) input actor).1 ≡ handle

run_all-append :
    (json : HostJson) (host : Host) (xs ys : List Call)
    → run_all json host (xs ++ ys) ≡ run_all json (run_all json host xs) ys
unfolding run_all
run_all-append json host [] ys = refl
run_all-append json host (x ∷ xs) ys = run_all-append json (run json host x).0 xs ys

opened_handle :
    (host : Host) (input : Option (List ℕ)) (actor : ActorId) (scope : ScopeId)
    → borrow_str input ≡ some scope
    → (kb_open host input actor).1 ≡ (host.registry.next_handle + 1) % 2 ^ 32
unfolding kb_open
opened_handle host input actor scope e = ap (λ s. (opened host actor s).1) e

started-IsHosted : (O : ℕ → ScopeId → ActorId → Type 0) → IsHosted O started
unfolding Map.lookup
started-IsHosted O = record { sorted = tt; reached = λ handle b h. cc h }

module _ (json : HostJson) (all : List Call) where
  run_all-IsHosted :
      (done calls : List Call) (host : Host)
      → all ≡ done ++ calls
      → host ≡ run_all json started done
      → All (LoadsWell json) calls
      → IsHosted (IsOpening json all) host
      → IsHosted (IsOpening json all) (run_all json host calls)
  unfolding run_all
  run_all-IsHosted done [] host e at well h = h
  run_all-IsHosted done (call ∷ calls) host e at well h =
      run_all-IsHosted (done ++ call ∷ []) calls (run json host call).0
        (e ∙ sym (append_assoc done (call ∷ []) calls))
        (ap (λ x. (run json x call).0) at ∙ sym (run_all-append json started done (call ∷ [])))
        well.1
        (run-IsHosted (IsOpening json all) json host call
          (λ input actor scope opens named. record {
            before = done;
            after = calls;
            input = input;
            split = e ∙ ap (λ c. done ++ c ∷ calls) opens;
            named = named;
            returned =
                ap (λ x. (kb_open x input actor).1) (sym at)
                ∙ opened_handle host input actor scope named;
          })
          well.0 h)

-- Whatever a host calls, with whatever bytes, a board under a handle was opened by a call that returned
-- the handle, and is sound: its document is well-formed and of the scope that this call named, and
-- its history is within the bound. The documents that the calls load must be well-formed.
pub run_all-IsSound :
    (json : HostJson) (calls : List Call) (handle : ℕ) (b : Board)
    → All (LoadsWell json) calls
    → Map.lookup handle (run_all json started calls).registry.boards ≡ some b
    → (scope : ScopeId) × (actor : ActorId) × IsOpening json calls handle scope actor
      × IsSound scope b
unfolding run_all
run_all-IsSound json calls handle b well held =
    let hosted =
      run_all-IsHosted json calls [] calls started refl refl well
        (started-IsHosted (IsOpening json calls)) in
    let (scope, actor, origin, r) = hosted.reached handle b held in
    (scope, actor, origin, Reachable-IsSound scope actor b r)
