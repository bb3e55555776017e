-- ===== src/Ports.antt =====
-- The ports of the engine and their implementations in memory: crates/kboard-core/src/ports.rs.
pub mod Laws
use k_board.Common.{
  ℕ, ◌+◌, ◌%◌, ◌^◌, min, Bool, true, false, ◌||◌, List, [], ◌∷◌, ◌++◌, Option, none, some, length,
  drop, any, map_or, unwrap_or, if◌then◌else◌, ◌==◌,
}
use k_board.Common.Order.{bytes_ord, equals}
use k_board.Common.Map
use k_board.Common.Map.{Map}
use k_board.Common.Text.{Str}
use k_board.Clock.{ActorId}
use k_board.Document.{ScopeId}
use k_board.Op.{StampedOp}
use k_board.Snapshot.{Snapshot}

pub data PortError : Type 0 where
  denied not_found : PortError
  backend : Str → PortError

-- `Result<A, PortError>`.
pub data Answer (A : Type 0) : Type 0 where
  ok : A → Answer A
  err : PortError → Answer A

-- `SteppingClock`: the clock afterwards, and the time read.
pub record SteppingClock : Type 0 where
  pub now : ℕ
  pub step : ℕ

unfoldable pub now_millis : SteppingClock → SteppingClock × ℕ
now_millis c = (record c { now = (c.now + c.step) % 2 ^ 64 }, c.now)

-- `RosterAuthority`.
abbrev pub Members : Type 0
Members = Map ScopeId (List ActorId)

unfoldable pub admit : Members → ScopeId → ActorId → Members
admit members scope actor =
    Map.insert scope (unwrap_or [] (Map.lookup scope members) ++ actor ∷ []) members

unfoldable pub may_read : Members → ScopeId → ActorId → Bool
may_read members scope actor =
    map_or false (λ list. any (λ a. a == actor) list) (Map.lookup scope members)

unfoldable pub may_write : Members → ScopeId → ActorId → Bool
may_write members scope actor = may_read members scope actor

-- `MemoryOpLog`.
abbrev pub Logs : Type 0
Logs = Map ScopeId (List StampedOp)

-- `append`: the logs afterwards, and the length of the scope's log.
unfoldable pub append : Logs → ScopeId → List StampedOp → Logs × Answer ℕ
append logs scope ops =
    let log = unwrap_or [] (Map.lookup scope logs) ++ ops in
    (Map.insert scope log logs, ok (length log))

unfoldable pub read_since : Logs → ScopeId → ℕ → Answer (List StampedOp)
read_since logs scope after = elim (Map.lookup scope logs) [
  | none ↦ ok []
  | some log ↦ ok (drop (min after (length log)) log)
]

unfoldable pub count : Logs → ScopeId → Answer ℕ
count logs scope = ok (map_or 0 length (Map.lookup scope logs))

-- `MemorySnapshots`.
abbrev pub Stored : Type 0
Stored = Map ScopeId Snapshot

abbrev pub mismatch : Str
mismatch = k_board.Common.Text.ascii "snapshot scope mismatch"

unfoldable pub load : Stored → ScopeId → Answer (Option Snapshot)
load stored scope = ok (Map.lookup scope stored)

unfoldable pub store : Stored → ScopeId → Snapshot → Stored × Answer Unit
store stored scope snapshot =
    if equals snapshot.document.scope scope
    then (Map.insert scope snapshot stored, ok tt)
    else (stored, err (backend mismatch))
