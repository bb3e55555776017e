-- ===== src/Common/Float.antt =====
-- `f64` and `f32` as their IEEE 754 bit patterns, with what the engine computes of them: the test
-- for a finite number, and the conversion `as f64` of an `i64`, which rounds to nearest, ties to
-- even.
pub mod Arith
use Prim.Native.Nat.{ℕ, zero, suc, ◌+◌, ◌-◌, ◌*◌, ◌/◌, ◌%◌, ◌^◌}
use mathlib.Core.Bool.{Bool, true, false, not, ◌&&◌, ◌||◌}
use k_board.Common.Tests.{◌==◌, ltb, leb, if◌then◌else◌}

abbrev pub F64 : Type 0
F64 = ℕ

abbrev pub F32 : Type 0
F32 = ℕ

-- `is_finite`: the exponent is not all ones.
unfoldable pub is_finite : F64 → Bool
is_finite bits = not ((bits / 2 ^ 52) % 2 ^ 11 == 2047)

unfoldable pub is_finite_f32 : F32 → Bool
is_finite_f32 bits = not ((bits / 2 ^ 23) % 2 ^ 8 == 255)

-- `i64`: `negsuc n` is -(n + 1).
pub data ℤ : Type 0 where
  pos : ℕ → ℤ
  negsuc : ℕ → ℤ

-- The exponent of the highest bit, of a number below `2 ^ fuel`.
unfoldable pub log2_below : ℕ → ℕ → ℕ
log2_below zero n = 0
log2_below (suc fuel) n = elim (ltb n 2) [ true ↦ 0 | false ↦ suc (log2_below fuel (n / 2)) ]

-- The significand of 53 bits for a number with its highest bit at `e`; rounding up may carry into
-- the exponent, as it should.
unfoldable pub significand : ℕ → ℕ → ℕ
significand e n =
    if leb e 52
    then n * 2 ^ (52 - e)
    else (let unit = 2 ^ (e - 52) in
        let q = n / unit in
        let r = n % unit in if ltb unit (2 * r) || (2 * r == unit && q % 2 == 1) then q + 1 else q)

unfoldable pub f64_of_magnitude : ℕ → F64
unfolding log2_below significand
f64_of_magnitude zero = 0
f64_of_magnitude (suc n) =
    let e = log2_below 64 (suc n) in (e + 1022) * 2 ^ 52 + significand e (suc n)

-- `as f64` at an `i64`.
unfoldable pub f64_of_int : ℤ → F64
unfolding f64_of_magnitude
f64_of_int (ℤ.pos n) = f64_of_magnitude n
f64_of_int (ℤ.negsuc n) = 2 ^ 63 + f64_of_magnitude (suc n)
