-- ===== src/Op/Build.antt =====
-- The operations that `upsert` and `clear` build: crates/kboard-core/src/op.rs.
use mathlib.Core.List.{Memᴰ}
use mathlib.Core.Logic.{∥∥₁_elim}
use Prim.Native.Nat.Ordering.{lt}
use k_board.Common.{
  ℕ, ◌+◌, ◌<◌, ◌≤◌, List, [], ◌∷◌, map, ◌≡◌, ◌≢◌, refl, ap, sym, subst, ◌∙◌, arith, length, All,
  inr,
}
use k_board.Clock.{Hlc, cmp_hlc, HlcGenerator, tick, u32_max}
use k_board.Clock.Order.{cmp_hlc-IsTotal}
use k_board.Clock.Monotone.{tick_lem}
use k_board.Prop.Key.{PropKey}
use k_board.Prop.Value.{PropValue}
use k_board.Element.{Element, ElementId}
use k_board.Document.{Document, live}
use k_board.Op.{Op, StampedOp, upsert, clear, delete_each}
use k_board.Op.Convergence.{StampsAreUnique}
open cmp_hlc-IsTotal use {eq_self, chain}

-- Each stamp is above the one before it, and the first above a given one.
abbrev pub IsRising : Hlc → List StampedOp → Type 0
IsRising s [] = Unit
IsRising s (o ∷ os) = (cmp_hlc s o.stamp ≡ lt) × IsRising o.stamp os

pub tick-rises :
    (g : HlcGenerator) (now : ℕ)
    → g.last.counter < u32_max
    → (cmp_hlc g.last (tick g now).1 ≡ lt)
      × ((tick g now).0.last ≡ (tick g now).1)
      × ((tick g now).1.actor ≡ g.last.actor)
tick-rises g now h =
    let (above, kept, actor, _, _) = tick_lem g now (omega arith) in (above.1 (inr h), kept, actor)

pub tick-counter : (g : HlcGenerator) (now : ℕ) → (tick g now).0.last.counter ≤ g.last.counter + 1
unfolding tick
tick-counter g now = ground arith

-- The stamps that a clock with room gives are rising, and of its actor.
abbrev pub IsStamped : HlcGenerator → List StampedOp → Type 0
IsStamped g ops = IsRising g.last ops × All (λ o. o.stamp.actor ≡ g.last.actor) ops

IsStamped-cons :
    (g : HlcGenerator) (now : ℕ) (op : Op) (ops : List StampedOp)
    → g.last.counter < u32_max
    → IsStamped (tick g now).0 ops
    → IsStamped g (record { stamp = (tick g now).1; op = op } ∷ ops)
IsStamped-cons g now op ops h s =
    let (above, kept, actor) = tick-rises g now h in
    (
      (above, subst (λ t. IsRising t ops) kept s.0),
      (actor, subst (λ a. All (λ o. o.stamp.actor ≡ a) ops) (ap (λ t. t.actor) kept ∙ actor) s.1),
    )

-- `upsert` gives each property one operation on the element, in order; the stamps are the clock's
-- own and each is above the one before, while the clock's counter has room for them.
pub upsert_lem :
    (e : ElementId) (props : List (PropKey × PropValue)) (clock : HlcGenerator) (now : ℕ)
    → clock.last.counter + length props ≤ u32_max
    → let ops = (upsert e props clock now).1 in
      (map (λ o. o.op) ops ≡ map (λ p. Op.set e p.0 p.1) props) × IsStamped clock ops
unfolding upsert
upsert_lem e [] clock now h = (refl, (tt, tt))
upsert_lem e ((key, value) ∷ props) clock now h =
    let next = (tick clock now).0 in
    let room : next.last.counter + length props ≤ u32_max = omega (arith, tick-counter clock now) in
    let ih = upsert_lem e props next now room in
    (
      ap (λ ops. Op.set e key value ∷ ops) ih.0,
      IsStamped-cons clock now (Op.set e key value) _ (omega arith) ih.1,
    )

deletes_lem :
    (es : List Element) (clock : HlcGenerator) (now : ℕ)
    → clock.last.counter + length es ≤ u32_max
    → let ops = (delete_each es clock now).1 in
      (map (λ o. o.op) ops ≡ map (λ e. Op.delete e.id) es) × IsStamped clock ops
unfolding delete_each
deletes_lem [] clock now h = (refl, (tt, tt))
deletes_lem (e ∷ es) clock now h =
    let next = (tick clock now).0 in
    let room : next.last.counter + length es ≤ u32_max = omega (arith, tick-counter clock now) in
    let ih = deletes_lem es next now room in
    (
      ap (λ ops. Op.delete e.id ∷ ops) ih.0,
      IsStamped-cons clock now (Op.delete e.id) _ (omega arith) ih.1,
    )

-- `clear` gives each live element one tombstone, in order; the stamps are the clock's own and each
-- is above the one before, while the clock's counter has room for them.
pub clear_lem :
    (d : Document) (clock : HlcGenerator) (now : ℕ)
    → clock.last.counter + length (live d) ≤ u32_max
    → let ops = (clear d clock now).1 in
      (map (λ o. o.op) ops ≡ map (λ e. Op.delete e.id) (live d)) × IsStamped clock ops
unfolding clear
clear_lem d clock now h = deletes_lem (live d) clock now h

later-above :
    (s : Hlc) (ops : List StampedOp)
    → IsRising s ops
    → (a : StampedOp) → Memᴰ a ops
    → cmp_hlc s a.stamp ≡ lt
later-above s [] r a m = elim m [ ]
later-above s (o ∷ os) r a (Memᴰ.head e) = subst (λ x. cmp_hlc s x.stamp ≡ lt) (sym e) r.0
later-above s (o ∷ os) r a (Memᴰ.tail m) =
    chain s o.stamp a.stamp r.0 (later-above o.stamp os r.1 a m)

below_self : (s t : Hlc) → cmp_hlc s t ≡ lt → s ≢ t
below_self s t h e = cc (eq_self s)

rising_once :
    (s : Hlc) (ops : List StampedOp)
    → IsRising s ops
    → (a b : StampedOp) → Memᴰ a ops
    → Memᴰ b ops
    → a.stamp ≡ b.stamp
    → a ≡ b
rising_once s [] r a b ma mb e = elim ma [ ]
rising_once s (o ∷ os) r a b (Memᴰ.head p) (Memᴰ.head q) e = p ∙ sym q
rising_once s (o ∷ os) r a b (Memᴰ.head p) (Memᴰ.tail mb) e =
    absurd
      (below_self o.stamp b.stamp (later-above o.stamp os r.1 b mb) (sym (ap (λ x. x.stamp) p) ∙ e))
rising_once s (o ∷ os) r a b (Memᴰ.tail ma) (Memᴰ.head q) e = absurd (
    below_self o.stamp a.stamp (later-above o.stamp os r.1 a ma)
      (sym (ap (λ x. x.stamp) q) ∙ sym e))
rising_once s (o ∷ os) r a b (Memᴰ.tail ma) (Memᴰ.tail mb) e =
    rising_once o.stamp os r.1 a b ma mb e

Op-set : IsSet Op
Op-set = hlevel

-- Rising stamps are unique, as convergence asks.
pub rising-StampsAreUnique : (s : Hlc) (ops : List StampedOp) → IsRising s ops → StampsAreUnique ops
rising-StampsAreUnique s ops r a b ma mb e =
    ∥∥₁_elim ma (Op-set _ _)
      (λ p. ∥∥₁_elim mb (Op-set _ _) (λ q. ap (λ o. o.op) (rising_once s ops r a b p q e)))
