-- ===== src/Clock/Order.antt =====
-- Stamps are totally ordered: crates/kboard-core/src/clock.rs, `Ord for Hlc`.
use k_board.Common.{◌≡◌, arith}
use Prim.Native.Nat.Ordering.{lt, eq}
use k_board.Common.Order.{Ord, IsTotal, reverse}
use k_board.Clock.{Hlc, cmp_hlc}

same_stamp : (a b : Hlc) → cmp_hlc a b ≡ eq → a ≡ b
unfolding cmp_hlc
same_stamp a b h = ground arith

flipped_stamp : (a b : Hlc) → cmp_hlc b a ≡ reverse (cmp_hlc a b)
unfolding cmp_hlc
flipped_stamp a b = ground arith

chain_stamp : (a b c : Hlc) → cmp_hlc a b ≡ lt → cmp_hlc b c ≡ lt → cmp_hlc a c ≡ lt
unfolding cmp_hlc
chain_stamp a b c h k = ground arith

self_stamp : (a : Hlc) → cmp_hlc a a ≡ eq
unfolding cmp_hlc
self_stamp a = ground arith

-- The order on stamps is total, and stamps that compare equal are the same stamp.
pub cmp_hlc-IsTotal : IsTotal cmp_hlc
cmp_hlc-IsTotal = record {
  eq_self = self_stamp;
  same = same_stamp;
  flipped = flipped_stamp;
  chain = chain_stamp;
}

instance unfoldable pub hlc_ord : Ord Hlc
hlc_ord = record { cmp = cmp_hlc; total = cmp_hlc-IsTotal }
