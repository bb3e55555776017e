-- ===== src/Element/MaxStamp.antt =====
-- The highest of a list of stamps: crates/kboard-core/src/element.rs, `max_stamp`.
use k_board.Common.{false, ◌||◌, List, [], ◌∷◌, map_or, ◌≡◌, refl, ap, ◌∙◌, arith, any}
use k_board.Common.Order.{at_most, greater}
use k_board.Clock.{Hlc}
use k_board.Clock.Order.{hlc_ord}
use k_board.Element.{max_from, max_of}
open hlc_ord use {same, flipped, chain, eq_self}

pub greater_assoc : (a b c : Hlc) → greater (greater a b) c ≡ greater a (greater b c)
greater_assoc a b c = ground (
  arith,
  same a b,
  same b c,
  same a c,
  flipped a b,
  flipped b c,
  flipped a c,
  chain a b c,
  chain c b a,
  chain a c b,
  chain b a c,
)

pub at_most-greater : (s a b : Hlc) → at_most s (greater a b) ≡ (at_most s a || at_most s b)
at_most-greater s a b = ground (
  arith,
  same a b,
  same s a,
  same s b,
  flipped a b,
  flipped s a,
  flipped s b,
  chain a b s,
  chain b a s,
  chain s a b,
  chain s b a,
)

pub max_from-greater :
    (a s : Hlc) (ts : List Hlc) → max_from (greater a s) ts ≡ greater a (max_from s ts)
unfolding max_from
max_from-greater a s [] = refl
max_from-greater a s (t ∷ ts) =
    ap (λ x. max_from x ts) (greater_assoc a s t) ∙ max_from-greater a (greater s t) ts

at_most-max_from :
    (s a : Hlc) (ts : List Hlc) → at_most s (max_from a ts) ≡ (at_most s a || any (at_most s) ts)
unfolding max_from
at_most-max_from s a [] = ground arith
at_most-max_from s a (t ∷ ts) =
    ground (arith, at_most-max_from s (greater a t) ts, at_most-greater s a t)

-- A stamp is at or below the highest exactly when it is at or below one of the list.
pub at_most-max_of :
    (s : Hlc) (ts : List Hlc) → map_or false (at_most s) (max_of ts) ≡ any (at_most s) ts
unfolding max_of
at_most-max_of s [] = refl
at_most-max_of s (t ∷ ts) = at_most-max_from s t ts
