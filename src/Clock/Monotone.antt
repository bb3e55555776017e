-- ===== src/Clock/Monotone.antt =====
-- What `tick` and `observe` promise: crates/kboard-core/src/clock.rs.
use k_board.Common.{ℕ, ◌<◌, ◌≤◌, ◌≡◌, ◌↔◌, ◌⊎◌, arith}
use Prim.Native.Nat.Ordering.{lt}
use k_board.Clock.{Hlc, cmp_hlc, HlcGenerator, tick, observe, u32_max}

-- A tick gives a stamp above the last one exactly when the wall time moves on or the counter has
-- room; the actor stays, and the generator remembers the stamp.
pub tick_lem :
    (g : HlcGenerator) (now : ℕ)
    → g.last.counter ≤ u32_max
    → let (g', stamp) = tick g now in
      ((cmp_hlc g.last stamp ≡ lt) ↔ ((g.last.wall < now) ⊎ (g.last.counter < u32_max)))
      × (g'.last ≡ stamp)
      × (stamp.actor ≡ g.last.actor)
      × (now ≤ stamp.wall)
      × (stamp.counter ≤ u32_max)
unfolding tick cmp_hlc
tick_lem g now h = ground arith

-- Observing a remote stamp gives a stamp above both the last own one and the remote one, while
-- neither counter is at its ceiling; the actor stays, and the generator remembers the stamp.
pub observe_lem :
    (g : HlcGenerator) (remote : Hlc) (now : ℕ)
    → g.last.counter < u32_max
    → remote.counter < u32_max
    → let (g', stamp) = observe g remote now in
      (cmp_hlc g.last stamp ≡ lt)
      × (cmp_hlc remote stamp ≡ lt)
      × (g'.last ≡ stamp)
      × (stamp.actor ≡ g.last.actor)
      × (now ≤ stamp.wall)
      × (stamp.counter ≤ u32_max)
unfolding observe cmp_hlc
observe_lem g remote now h k = ground arith
