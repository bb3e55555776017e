-- ===== src/Snapshot/Laws.antt =====
-- A snapshot and a tail are the whole log, and what a snapshot covers:
-- crates/kboard-core/src/snapshot.rs.
use mathlib.Core.List.{map-append}
use k_board.Common.{
  ◌+◌, ◌%◌, ◌^◌, Bool, false, ◌||◌, List, [], ◌∷◌, ◌++◌, map, Option, none, some, map_or, ◌≡◌, refl,
  ap, sym, ◌∙◌, arith, any, length, length-append, ◌<◌,
}
use k_board.Common.Order.{at_most, greater}
use k_board.Clock.{Hlc}
use k_board.Clock.Order.{hlc_ord}
use k_board.Element.{max_of, max_from}
use k_board.Element.MaxStamp.{greater_assoc, max_from-greater, at_most-max_of, at_most-greater}
use k_board.Op.{StampedOp, apply_all}
use k_board.Op.Replay.{replay-append}
use k_board.Snapshot.{Snapshot, advance, absorb, covers}

advance_assoc : (a b c : Option Hlc) → advance (advance a b) c ≡ advance a (advance b c)
unfolding advance
advance_assoc a b none = refl
advance_assoc a none (some c) = refl
advance_assoc none (some b) (some c) = refl
advance_assoc (some a) (some b) (some c) = ap some (greater_assoc a b c)

advance-none : (a : Option Hlc) → advance none a ≡ a
unfolding advance
advance-none none = refl
advance-none (some a) = refl

max_from-append :
    (s : Hlc) (xs ys : List Hlc)
    → some (max_from s (xs ++ ys)) ≡ advance (some (max_from s xs)) (max_of ys)
unfolding max_from max_of advance
max_from-append s [] [] = refl
max_from-append s [] (y ∷ ys) = ap some (max_from-greater s y ys)
max_from-append s (t ∷ xs) ys = max_from-append (greater s t) xs ys

max_of-append : (xs ys : List Hlc) → max_of (xs ++ ys) ≡ advance (max_of xs) (max_of ys)
unfolding max_of
max_of-append [] ys = sym (advance-none (max_of ys))
max_of-append (x ∷ xs) ys = max_from-append x xs ys

-- Absorbing a log in two parts, at any place, is absorbing it whole: the same document, the same
-- horizon and the same count.
pub absorb-append :
    (s : Snapshot) (xs ys : List StampedOp)
    → (absorb (absorb s xs).0 ys).0 ≡ (absorb s (xs ++ ys)).0
unfolding absorb
absorb-append s xs ys =
    let stamps = λ (ops : List StampedOp). max_of (map (λ o. o.stamp) ops) in
    let document = sym (replay-append s.document xs ys) in
    let through : advance (advance s.through (stamps xs)) (stamps ys)
        ≡ advance s.through (stamps (xs ++ ys)) =
      advance_assoc s.through (stamps xs) (stamps ys)
      ∙ ap (advance s.through) (
          sym (max_of-append (map (λ o. o.stamp) xs) (map (λ o. o.stamp) ys))
          ∙ ap max_of (sym (map-append (λ o. o.stamp) xs ys))) in
    let absorbed : ((s.absorbed + length xs) % 2 ^ 64 + length ys) % 2 ^ 64
        ≡ (s.absorbed + length (xs ++ ys)) % 2 ^ 64 =
      omega (arith, length-append xs ys) in
    λ i. record { document = document i; through = through i; absorbed = absorbed i }

covers-advance :
    (a b : Option Hlc) (t : Hlc)
    → map_or false (at_most t) (advance a b)
      ≡ (map_or false (at_most t) a || map_or false (at_most t) b)
unfolding advance
covers-advance none none t = refl
covers-advance none (some b) t = refl
covers-advance (some a) none t = ground arith
covers-advance (some a) (some b) t = at_most-greater t a b

any-map :
    (p : Hlc → Bool) (ops : List StampedOp)
    → any p (map (λ o. o.stamp) ops) ≡ any (λ o. p o.stamp) ops
any-map p [] = refl
any-map p (o ∷ ops) = ap (λ b. p o.stamp || b) (any-map p ops)

-- After a log is absorbed, an operation is covered exactly when it was before or its stamp is at
-- or below that of some operation of the log, whether or not it stands in the log itself.
pub covers-absorb :
    (s : Snapshot) (ops : List StampedOp) (a : StampedOp)
    → covers (absorb s ops).0 a ≡ (covers s a || any (λ b. at_most a.stamp b.stamp) ops)
unfolding covers absorb
covers-absorb s ops a =
    covers-advance s.through (max_of (map (λ o. o.stamp) ops)) a.stamp
    ∙ ap (λ b. map_or false (at_most a.stamp) s.through || b)
        (at_most-max_of a.stamp (map (λ o. o.stamp) ops) ∙ any-map (at_most a.stamp) ops)

-- Absorbing no operations does nothing.
pub absorb-nil : (s : Snapshot) → s.absorbed < 2 ^ 64 → (absorb s []).0 ≡ s
unfolding absorb apply_all advance max_of
absorb-nil s h =
    let e : (s.absorbed + 0) % 2 ^ 64 ≡ s.absorbed = omega (arith, h) in
    λ i. record { document = s.document; through = s.through; absorbed = e i }

pub absorbed-lt : (s : Snapshot) (ops : List StampedOp) → (absorb s ops).0.absorbed < 2 ^ 64
unfolding absorb
absorbed-lt s ops = omega arith
