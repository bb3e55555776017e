-- ===== src/Frac/Search.antt =====
-- The loop of `between`, against a recursion on the two bounds: crates/kboard-core/src/frac.rs.
use mathlib.Core.List.{append_assoc}
use k_board.Common.{
  ℕ, zero, suc, ◌+◌, ◌/◌, ◌<◌, ◌≤◌, Bool, true, false, [], ◌∷◌, ◌++◌, Option, some, drop, length,
  ltb, if◌then◌else◌, ◌≡◌, refl, ap, sym, ◌∙◌, arith, Bool-cases, inl, inr,
}
use k_board.Common.Text.{Str}
use k_board.Frac.{value_of, base, high_at, done, search_digit}
use k_board.Frac.Digit.{digit, value_of-lt}
use k_board.Frac.Rounds.{
  first_value, rest, above, within, drop-suc, first_value-lt, length-rest, above_room, above_tight,
  high_at_free, same_branch, shorter, length-tight, search_round,
}

-- Without an upper bound the loop ends within one round more than there are digits, with the key
-- above the rest of the lower bound.
search_above :
    (fuel : ℕ) (lower : Str) (upper : Option Str) (i : ℕ) (out : Str)
    → length (drop i lower) < fuel
    → search_digit fuel lower upper i false out ≡ done (out ++ above (drop i lower))
search_above zero lower upper i out h = elim h [ ]
search_above (suc fuel) lower upper i out h =
    let s = drop i lower in
    let round =
      search_round fuel lower upper i false out base (high_at_free upper i) (omega arith) in
    elim (Bool-cases (ltb (first_value s + 1) base)) [
      | inl room ↦ round ∙ rw room (ap (λ r. done (out ++ r)) (sym (above_room s room)))
      | inr tight ↦
          round
          ∙ rw tight (
              ap (λ b. search_digit fuel lower upper (suc i) b (out ++ digit (first_value s) ∷ []))
                (same_branch (ltb (first_value s) base))
              ∙ search_above fuel lower upper (suc i) (out ++ digit (first_value s) ∷ [])
                  (length-tight fuel lower i tight h)
              ∙ ap done (
                  append_assoc out (digit (first_value s) ∷ []) (above (drop (suc i) lower))
                  ∙ ap (λ r. out ++ digit (first_value s) ∷ above r) (drop-suc lower i)
                  ∙ ap (λ r. out ++ r) (sym (above_tight s tight))))
    ]

within-nil : (s : Str) → within s [] ≡ above s
unfolding within
within-nil s = refl

high_at_past : (upper : Str) (i : ℕ) → drop i upper ≡ [] → high_at true (some upper) i ≡ base
unfolding high_at
high_at_past [] zero e = refl
high_at_past [] (suc i) e = refl
high_at_past (c ∷ upper) zero e = cc
high_at_past (c ∷ upper) (suc i) e = high_at_past upper i e

high_at_inside :
    (upper : Str) (i : ℕ) {c : ℕ} {u : Str}
    → drop i upper ≡ c ∷ u
    → high_at true (some upper) i ≡ value_of c
unfolding high_at
high_at_inside [] zero e = cc
high_at_inside [] (suc i) e = cc
high_at_inside (d ∷ upper) zero e = cc
high_at_inside (d ∷ upper) (suc i) e = high_at_inside upper i e

drop-next : (key : Str) (i : ℕ) (s : Str) → drop i key ≡ s → drop (suc i) key ≡ rest s
drop-next key i s e = drop-suc key i ∙ ap rest e

-- A round, with the rest of the lower bound named.
round_at :
    (fuel : ℕ) (lower : Str) (upper : Option Str) (i : ℕ) (bounded : Bool) (out l : Str) (high : ℕ)
    → drop i lower ≡ l
    → high_at bounded upper i ≡ high
    → high ≤ base
    → search_digit (suc fuel) lower upper i bounded out ≡ (
        if ltb (first_value l + 1) high
        then done (out ++ digit ((first_value l + high) / 2) ∷ [])
        else search_digit fuel lower upper
            (suc i)
            (if ltb (first_value l) high then false else bounded)
            (out ++ digit (first_value l) ∷ []))
round_at fuel lower upper i bounded out l high el e h =
    rw (← el) (search_round fuel lower upper i bounded out high e h)

-- The loop after a round that frees it of the upper bound.
freed :
    (fuel : ℕ) (lower : Str) (upper : Option Str) (i d : ℕ) (out l : Str)
    → drop i lower ≡ l
    → length (rest l) < fuel
    → search_digit fuel lower upper (suc i) false (out ++ d ∷ []) ≡ done (out ++ d ∷ above (rest l))
freed fuel lower upper i d out l el h =
    let e = drop-next lower i l el in
    search_above fuel lower upper (suc i) (out ++ d ∷ []) (rw e h)
    ∙ ap done (append_assoc out (d ∷ []) (above (drop (suc i) lower)))
    ∙ ap (λ s. done (out ++ d ∷ above s)) e

below_base : (s : Str) → ltb (first_value s) base ≡ true
below_base s = let h = first_value-lt s in ground arith

-- With an upper bound the loop ends, too, with the key between the rests of the two bounds.
search_within :
    (fuel : ℕ) (lower upper : Str) (i : ℕ) (out l u : Str)
    → drop i lower ≡ l
    → drop i upper ≡ u
    → length l + length u < fuel
    → search_digit fuel lower (some upper) i true out ≡ done (out ++ within l u)
unfolding within
search_within zero lower upper i out l u el eu h = elim h [ ]
search_within (suc fuel) lower upper i out l [] el eu h =
    let round =
      round_at fuel lower (some upper) i true out l base el (high_at_past upper i eu)
        (omega arith) in
    elim (Bool-cases (ltb (first_value l + 1) base)) [
      | inl room ↦ round ∙ rw room (ap (λ r. done (out ++ r)) (sym (above_room l room)))
      | inr tight ↦
          round
          ∙ rw (tight, below_base l)
              (freed fuel lower (some upper) i (digit (first_value l)) out l el
                  (shorter l fuel tight (omega arith))
                ∙ ap (λ r. done (out ++ r)) (sym (above_tight l tight)))
    ]
search_within (suc fuel) lower upper i out l (c ∷ u) el eu h =
    let high = value_of c in
    let small : high ≤ base = omega (arith, value_of-lt c) in
    let round =
      round_at fuel lower (some upper) i true out l high el (high_at_inside upper i eu) small in
    let next : length (rest l) + length u < fuel = omega (arith, length-rest l) in
    elim (Bool-cases (ltb (first_value l + 1) high)) [
      | inl room ↦ round ∙ rw (room, within)
      | inr tight ↦ elim (Bool-cases (ltb (first_value l) high)) [
        | inl lower_digit ↦
            round
            ∙ rw (tight, within, lower_digit)
                (freed fuel lower (some upper) i (digit (first_value l)) out l el (omega arith))
        | inr same_digit ↦
            round
            ∙ rw (tight, within, same_digit)
                (search_within fuel lower upper (suc i) (out ++ digit (first_value l) ∷ []) (rest l)
                    u (drop-next lower i l el) (drop-next upper i (c ∷ u) eu) next
                  ∙ ap done (append_assoc out (digit (first_value l) ∷ []) (within (rest l) u)))
      ]
    ]

-- The key that the loop of `between` emits.
pub search-above :
    (fuel : ℕ) (lower : Str) (upper : Option Str)
    → length lower < fuel
    → search_digit fuel lower upper 0 false [] ≡ done (above lower)
search-above fuel lower upper h = search_above fuel lower upper 0 [] h

pub search-within :
    (fuel : ℕ) (lower upper : Str)
    → length lower + length upper < fuel
    → search_digit fuel lower (some upper) 0 true [] ≡ done (within lower upper)
search-within fuel lower upper h = search_within fuel lower upper 0 [] lower upper refl refl h
