-- ===== src/Board/Causality.antt =====
-- Local edits come after what a board has merged: crates/kboard-ffi/src/board.rs, `merge_ops`.
use Prim.Native.Nat.Ordering.{lt, gt}
use k_board.Common.{
  ℕ, ◌<◌, ◌≤◌, true, false, List, [], ◌∷◌, some, map, map_or, any, All, ◌≡◌, ◌≢◌, refl, ap, sym,
  ◌∙◌, arith,
}
use k_board.Common.Order.{at_most, greater}
use k_board.Clock.{Hlc, HlcGenerator, cmp_hlc, tick, observe, u32_max}
use k_board.Clock.Order.{hlc_ord, cmp_hlc-IsTotal}
use k_board.Clock.Monotone.{observe_lem}
use k_board.Element.{max_of, max_from}
use k_board.Element.MaxStamp.{at_most-max_of}
use k_board.Op.{StampedOp}
use k_board.Board.{Board, merge_ops, observe_highest}
open cmp_hlc-IsTotal use {eq_self, same, chain}

any_self : (ts : List Hlc) → All (λ t. any (at_most t) ts ≡ true) ts
unfolding hlc_ord
any_self [] = tt
any_self (s ∷ ts) = (ground (arith, eq_self s), later s ts ts (any_self ts))
  where
    later :
        (s : Hlc) (ts us : List Hlc)
        → All (λ t. any (at_most t) ts ≡ true) us
        → All (λ t. any (at_most t) (s ∷ ts) ≡ true) us
    later s ts [] h = tt
    later s ts (u ∷ us) h = (ground (arith, h.0), later s ts us h.1)

below_highest :
    (t h : Hlc) (ts : List Hlc)
    → max_of ts ≡ some h
    → any (at_most t) ts ≡ true
    → at_most t h ≡ true
below_highest t h ts e a = ap (map_or false (at_most t)) (sym e) ∙ at_most-max_of t ts ∙ a

max_from-room :
    (s : Hlc) (ts : List Hlc)
    → s.counter < u32_max
    → All (λ t. t.counter < u32_max) ts
    → (max_from s ts).counter < u32_max
unfolding max_from hlc_ord
max_from-room s [] h a = h
max_from-room s (t ∷ ts) h a = max_from-room (greater s t) ts (ground (arith, a.0)) a.1

tick_not_below :
    (g : HlcGenerator) (now : ℕ) → g.last.counter ≤ u32_max → cmp_hlc g.last (tick g now).1 ≢ gt
unfolding tick cmp_hlc
tick_not_below g now h = ground arith

-- A stamp at or below another, one above that, and one not below the third.
above_all :
    (a h t u : Hlc) → at_most a h ≡ true → cmp_hlc h t ≡ lt → cmp_hlc t u ≢ gt → cmp_hlc a u ≡ lt
unfolding hlc_ord
above_all a h t u p q r = ground (arith, chain a h t, same a h, chain a t u, same t u)

observed_highest :
    (g : HlcGenerator) (h : Hlc) (now : ℕ) (a : Hlc)
    → g.last.counter < u32_max
    → h.counter < u32_max
    → at_most a h ≡ true
    → cmp_hlc a (tick (observe g h h.wall).0 now).1 ≡ lt
observed_highest g h now a own theirs p =
    let (_, above, kept, _, _, room) = observe_lem g h h.wall own theirs in
    let g' = (observe g h h.wall).0 in
    let stays : g'.last.counter ≤ u32_max = omega (arith, room, ap (λ t. t.counter) kept) in
    above_all a h g'.last (tick g' now).1 p (ap (cmp_hlc h) kept ∙ above)
      (tick_not_below g' now stays)

each :
    (P Q : Hlc → Type 0) (ops : List StampedOp)
    → ((t : Hlc) → P t → Q t)
    → All P (map (λ o. o.stamp) ops)
    → All (λ o. Q o.stamp) ops
each P Q [] f a = tt
each P Q (o ∷ ops) f a = (f o.stamp a.0, each P Q ops f a.1)

rooms :
    (ops : List StampedOp)
    → All (λ o. o.stamp.counter < u32_max) ops
    → All (λ t. t.counter < u32_max) (map (λ o. o.stamp) ops)
rooms [] a = tt
rooms (o ∷ ops) a = (a.0, rooms ops a.1)

-- After operations of peers are merged, the next stamp that the board gives is above each of theirs,
-- while no counter is at its ceiling.
pub merge_ops-tick :
    (b : Board) (ops : List StampedOp) (now : ℕ)
    → b.clock.last.counter < u32_max
    → All (λ o. o.stamp.counter < u32_max) ops
    → All (λ o. cmp_hlc o.stamp (tick (merge_ops b ops).0.clock now).1 ≡ lt) ops
unfolding merge_ops observe_highest max_of
merge_ops-tick b [] now own room = tt
merge_ops-tick b (o ∷ ops) now own room =
    let stamps = map (λ o. o.stamp) (o ∷ ops) in
    let highest = max_from o.stamp (map (λ o. o.stamp) ops) in
    let theirs = max_from-room o.stamp (map (λ o. o.stamp) ops) room.0 (rooms ops room.1) in
    each (λ t. any (at_most t) stamps ≡ true) _ (o ∷ ops)
      (λ t a.
        observed_highest b.clock highest now t own theirs (below_highest t highest stamps refl a))
      (any_self stamps)
