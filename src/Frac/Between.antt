-- ===== src/Frac/Between.antt =====
-- The key that `between` returns lies between its bounds: crates/kboard-core/src/frac.rs.
use Prim.Native.Nat.Ordering.{lt, eq, gt}
use k_board.Common.{
  ℕ, ◌+◌, ◌/◌, ◌<◌, ◌≤◌, Bool, true, false, [], ◌∷◌, ltb, ◌==◌, if◌then◌else◌, ◌≡◌, ◌≢◌, refl,
  arith, Bool-cases, inl, inr,
}
use k_board.Common.Order.{bytes_ord, cmp_bytes}
use k_board.Common.Text.{Str}
use k_board.Frac.{value_of, base}
use k_board.Frac.Digit.{
  digit, is_digit, Digits, value_of-lt, digit-value_of, digit_mono, value_of_mono, digit-is_digit,
  digit-ne-zero,
}
use k_board.Frac.Rounds.{above, within, first_value, rest}

abbrev pub ends_in_zero : Str → Bool
ends_in_zero [] = false
ends_in_zero (c ∷ []) = c == b'0'
ends_in_zero (c ∷ d ∷ s) = ends_in_zero (d ∷ s)

-- A key that the module produces: digits, not none, and the last not a zero.
pub record IsKey (s : Str) : Type 0 where
  pub nonempty : s ≢ []
  pub digits : Digits s
  pub ending : ends_in_zero s ≡ false

cons-IsKey : (c : ℕ) (s : Str) → is_digit c ≡ true → IsKey s → IsKey (c ∷ s)
cons-IsKey c [] h k = absurd (k.nonempty refl)
cons-IsKey c (d ∷ s) h k = record { nonempty = λ e. cc; digits = (h, k.digits); ending = k.ending }

one-IsKey : (v : ℕ) → 0 < v → v < base → IsKey (digit v ∷ [])
one-IsKey v p q = record {
  nonempty = λ e. cc;
  digits = (digit-is_digit v q, tt);
  ending = let n = digit-ne-zero v p in ground arith;
}

pub above-IsKey : (l : Str) → IsKey (above l)
unfolding above
above-IsKey [] = one-IsKey 31 (omega arith) (omega arith)
above-IsKey (b ∷ l) = elim (Bool-cases (ltb (value_of b + 1) base)) [
  | inl room ↦
      rw (room) (one-IsKey ((value_of b + base) / 2) (ground arith) (omega (arith, value_of-lt b)))
  | inr tight ↦ rw tight (
      cons-IsKey (digit (value_of b)) (above l) (digit-is_digit (value_of b) (value_of-lt b))
        (above-IsKey l))
]

-- Without an upper bound the key lies above the lower one.
pub above-gt : (l : Str) → Digits l → cmp_bytes l (above l) ≡ lt
unfolding above cmp_bytes
above-gt [] h = refl
above-gt (b ∷ l) h =
    let v = value_of b in
    ground (arith, above-gt l h.1, value_of-lt b, digit-value_of b, digit_mono v ((v + base) / 2))

first_value-lt : (s : Str) → first_value s < base
first_value-lt [] = omega arith
first_value-lt (b ∷ s) = value_of-lt b

later-IsKey : (t : Bool) (p q : Str) → IsKey p → IsKey q → IsKey (if t then p else q)
later-IsKey true p q h k = h
later-IsKey false p q h k = k

pub within-IsKey : (l u : Str) → IsKey (within l u)
unfolding within
within-IsKey l [] = above-IsKey l
within-IsKey l (c ∷ u) =
    let low = first_value l in
    let high = value_of c in
    elim (Bool-cases (ltb (low + 1) high)) [
      | inl room ↦ rw room (
          one-IsKey ((low + high) / 2) (ground arith)
            (omega (arith, value_of-lt c, first_value-lt l)))
      | inr tight ↦ rw tight (
          cons-IsKey (digit low) _ (digit-is_digit low (first_value-lt l)) (
            later-IsKey (ltb low high) (above (rest l)) (within (rest l) u) (above-IsKey (rest l))
              (within-IsKey (rest l) u)))
    ]

within-cons :
    (l : Str) (c : ℕ) (u : Str)
    → within l (c ∷ u) ≡ (
        if ltb (first_value l + 1) (value_of c)
        then digit ((first_value l + value_of c) / 2) ∷ []
        else digit (first_value l)
          ∷ (if ltb (first_value l) (value_of c) then above (rest l) else within (rest l) u))
unfolding within
within-cons l c u = refl

below_upper :
    (l : Str) (c : ℕ) (u : Str)
    → is_digit c ≡ true
    → first_value l ≤ value_of c
    → (first_value l ≡ value_of c → cmp_bytes (within (rest l) u) u ≡ lt)
    → cmp_bytes (within l (c ∷ u)) (c ∷ u) ≡ lt
unfolding cmp_bytes
below_upper l c u d h ih =
    let low = first_value l in
    let high = value_of c in
    ground (
      arith,
      within-cons l c u,
      value_of-lt c,
      digit-value_of c d,
      digit_mono ((low + high) / 2) high,
      digit_mono low high,
    )

above_lower :
    (b : ℕ) (l : Str) (c : ℕ) (u : Str)
    → Digits (b ∷ l)
    → value_of b ≤ value_of c
    → (value_of b ≡ value_of c → cmp_bytes l (within l u) ≡ lt)
    → cmp_bytes (b ∷ l) (within (b ∷ l) (c ∷ u)) ≡ lt
unfolding cmp_bytes
above_lower b l c u d h ih =
    let low = value_of b in
    let high = value_of c in
    ground (
      arith,
      within-cons (b ∷ l) c u,
      value_of-lt c,
      digit-value_of b,
      digit_mono low ((low + high) / 2),
      above-gt l d.1,
    )

cmp_nil : (s : Str) → s ≢ [] → cmp_bytes [] s ≡ lt
unfolding cmp_bytes
cmp_nil [] h = absurd (h refl)
cmp_nil (c ∷ s) h = refl

cmp_nil_nil : cmp_bytes [] [] ≡ eq
unfolding cmp_bytes
cmp_nil_nil = refl

cmp_cons_nil : (b : ℕ) (l : Str) → cmp_bytes (b ∷ l) [] ≡ gt
unfolding cmp_bytes
cmp_cons_nil b l = refl

-- The heads of two bounds in order, and their tails where the heads are of one value.
heads_in_order :
    (b c : ℕ) (l u : Str)
    → is_digit b ≡ true
    → is_digit c ≡ true
    → cmp_bytes (b ∷ l) (c ∷ u) ≡ lt
    → (value_of b ≤ value_of c) × (value_of b ≡ value_of c → cmp_bytes l u ≡ lt)
unfolding cmp_bytes
heads_in_order b c l u db dc h =
    (ground (arith, value_of_mono b c), ground (arith, value_of_mono b c))

tail_ending : (c : ℕ) (u : Str) → ends_in_zero (c ∷ u) ≡ false → ends_in_zero u ≡ false
tail_ending c [] h = refl
tail_ending c (d ∷ u) h = h

zero_goes_on :
    (c : ℕ) (u : Str) → is_digit c ≡ true → ends_in_zero (c ∷ u) ≡ false → 0 ≡ value_of c → u ≢ []
unfolding value_of is_digit
zero_goes_on c [] d z h = absurd (ground arith)
zero_goes_on c (e ∷ u) d z h = λ e. cc

-- Between two bounds in order, the upper one of which does not end in a zero, the key lies strictly
-- between them.
pub within_bounds :
    (l u : Str)
    → Digits l
    → Digits u
    → ends_in_zero u ≡ false
    → cmp_bytes l u ≡ lt
    → (cmp_bytes l (within l u) ≡ lt) × (cmp_bytes (within l u) u ≡ lt)
within_bounds [] [] dl du z h = cc (cmp_nil_nil)
within_bounds (b ∷ l) [] dl du z h = cc (cmp_cons_nil b l)
within_bounds [] (c ∷ u) dl du z h = (
  cmp_nil (within [] (c ∷ u)) (within-IsKey [] (c ∷ u)).nonempty,
  below_upper [] c u du.0 (omega arith) (λ e.
      (within_bounds [] u tt du.1 (tail_ending c u z) (cmp_nil u (zero_goes_on c u du.0 z e))).1),
)
within_bounds (b ∷ l) (c ∷ u) dl du z h =
    let (order, tails) = heads_in_order b c l u dl.0 du.0 h in
    let ih =
      λ (e : value_of b ≡ value_of c). within_bounds l u dl.1 du.1 (tail_ending c u z) (tails e) in
    (
      above_lower b l c u dl order (λ e. (ih e).0),
      below_upper (b ∷ l) c u du.0 order (λ e. (ih e).1),
    )
