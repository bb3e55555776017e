-- ===== src/Clock.antt =====
-- The hybrid logical clock: crates/kboard-core/src/clock.rs.
pub mod Order
pub mod Monotone
use k_board.Common.{
  ℕ, ◌+◌, ◌-◌, ◌^◌, max, min, compare, Ordering, Bool, true, false, ◌==◌, if◌then◌else◌, ◌≡◌,
}
use k_board.Common.Order.{Ord, IsTotal, then_cmp, nat_ord}

-- `ActorId(pub u64)`: an opaque number.
abbrev pub ActorId : Type 0
ActorId = ℕ

abbrev pub u32_max : ℕ
u32_max = 2 ^ 32 - 1

-- `u32::saturating_add(1)`.
abbrev pub saturating_succ : ℕ → ℕ
saturating_succ c = min (c + 1) u32_max

pub record Hlc : Type 0 where
  pub wall : ℕ
  pub counter : ℕ
  pub actor : ActorId

unfoldable pub zero_stamp : ActorId → Hlc
zero_stamp actor = record { wall = 0; counter = 0; actor = actor }

-- `Ord for Hlc`: lexicographic over wall, counter and actor.
unfoldable pub cmp_hlc : Hlc → Hlc → Ordering
cmp_hlc a b =
    then_cmp (then_cmp (compare a.wall b.wall) (compare a.counter b.counter))
      (compare a.actor b.actor)

pub record HlcGenerator : Type 0 where
  pub last : Hlc

unfoldable pub new : ActorId → HlcGenerator
new actor = record { last = zero_stamp actor }

unfoldable pub actor_of : HlcGenerator → ActorId
actor_of g = g.last.actor

-- `tick` stamps a local event: the generator afterwards, and the stamp.
unfoldable pub tick : HlcGenerator → ℕ → HlcGenerator × Hlc
tick g physical_now =
    let last = g.last in
    let wall = max physical_now last.wall in
    let counter : ℕ = if wall == last.wall then saturating_succ last.counter else 0 in
    let stamp : Hlc = record { wall = wall; counter = counter; actor = last.actor } in
    (record { last = stamp }, stamp)

-- The `match` of `observe` on whether the new wall is the generator's own and the remote one's.
abbrev pub counter_after : Bool → Bool → ℕ → ℕ → ℕ
counter_after true true own remote = saturating_succ (max own remote)
counter_after true false own remote = saturating_succ own
counter_after false true own remote = saturating_succ remote
counter_after false false own remote = 0

-- `observe` stamps a local event that follows a remote stamp.
unfoldable pub observe : HlcGenerator → Hlc → ℕ → HlcGenerator × Hlc
observe g remote physical_now =
    let last = g.last in
    let wall = max (max physical_now last.wall) remote.wall in
    let counter : ℕ =
      counter_after (wall == last.wall) (wall == remote.wall) last.counter remote.counter in
    let stamp : Hlc = record { wall = wall; counter = counter; actor = last.actor } in
    (record { last = stamp }, stamp)
