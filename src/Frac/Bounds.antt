-- ===== src/Frac/Bounds.antt =====
-- What `between` returns: crates/kboard-core/src/frac.rs, `between`.
use k_board.Common.{
  suc, ◌+◌, ◌<◌, true, false, [], ◌∷◌, Option, none, some, length, ◌≡◌, refl, ap, ◌∙◌, arith, All,
  unwrap_or, is_some,
}
use k_board.Common.Order.{bytes_ord, cmp_bytes, at_most, Before}
use k_board.Common.Text.{Str, from_utf8_ascii}
use k_board.Frac.{done, search_digit, effective_upper, finish, between}
use k_board.Frac.Digit.{Digits, digit-lt-128}
use k_board.Frac.Rounds.{above, within}
use k_board.Frac.Search.{search-above, search-within}
use k_board.Frac.Between.{IsKey, ends_in_zero, above-IsKey, above-gt, within-IsKey, within_bounds}

-- The key between the bounds that the loop is given.
key_for : Str → Option Str → Str
key_for lower none = above lower
key_for lower (some upper) = within lower upper

key_for-IsKey : (lower : Str) (upper : Option Str) → IsKey (key_for lower upper)
unfolding key_for
key_for-IsKey lower none = above-IsKey lower
key_for-IsKey lower (some upper) = within-IsKey lower upper

search_lem :
    (lower : Str) (upper : Option Str)
    → search_digit
        (suc (length lower + length (unwrap_or [] upper)))
        lower
        upper
        0
        (is_some upper)
        []
      ≡ done (key_for lower upper)
unfolding key_for
search_lem lower none = search-above _ lower none (omega arith)
search_lem lower (some upper) = search-within _ lower upper (omega arith)

All-ascii : (s : Str) → Digits s → All (λ b. b < 128) s
All-ascii [] h = tt
All-ascii (b ∷ s) h = (digit-lt-128 b h.0, All-ascii s h.1)

finish_digits : (s : Str) → Digits s → finish (done s) ≡ done s
unfolding finish
finish_digits s h = rw (from_utf8_ascii s (All-ascii s h))

between_key :
    (before after : Option Str)
    → between before after ≡ done (key_for (unwrap_or [] before) (effective_upper before after))
unfolding between
between_key before after =
    let lower = unwrap_or [] before in
    let upper = effective_upper before after in
    ap finish (search_lem lower upper)
    ∙ finish_digits (key_for lower upper) (key_for-IsKey lower upper).digits

pub between-above : (before : Option Str) → between before none ≡ done (above (unwrap_or [] before))
unfolding key_for effective_upper
between-above none = between_key none none
between-above (some b) = between_key (some b) none

-- For any two bounds, whatever bytes they hold and in whatever order they are, `between` returns: it
-- indexes no digit out of range, and its loop ends within the fuel. What it returns is a key of
-- digits, not empty, that does not end in a zero.
pub between_returns-IsKey :
    (before after : Option Str) → (k : Str) × (between before after ≡ done k) × IsKey k
between_returns-IsKey before after = (
  _,
  between_key before after,
  key_for-IsKey (unwrap_or [] before) (effective_upper before after),
)

-- Whether a key is above a bound or below it, if the bound is there.
abbrev pub IsAbove : Option Str → Str → Type 0
IsAbove none k = Unit
IsAbove (some b) k = Before b k

IsAbove-bound : (before : Option Str) (k : Str) → Before (unwrap_or [] before) k → IsAbove before k
IsAbove-bound none k h = tt
IsAbove-bound (some b) k h = h

ordered_upper :
    (before : Option Str) (a : Str)
    → Before (unwrap_or [] before) a
    → effective_upper before (some a) ≡ some a
unfolding effective_upper
ordered_upper none a h = refl
ordered_upper (some b) a h = ground (arith, bytes_ord.flipped b a)

-- Between bounds of digits in order, the upper one of which does not end in a zero, `between`
-- returns a key strictly between them. Without a lower bound, the upper one need only be above the
-- empty string.
pub between_in_order :
    (before : Option Str) (a : Str)
    → Digits (unwrap_or [] before)
    → Digits a
    → ends_in_zero a ≡ false
    → Before (unwrap_or [] before) a
    → (k : Str) × (between before (some a) ≡ done k) × IsAbove before k × Before k a
unfolding key_for bytes_ord cmp_bytes
between_in_order before a db da ending order =
    let lower = unwrap_or [] before in
    let bounds = within_bounds lower a db da ending order in
    (
      within lower a,
      between_key before (some a) ∙ ap (λ u. done (key_for lower u)) (ordered_upper before a order),
      IsAbove-bound before (within lower a) bounds.0,
      bounds.1,
    )

misordered_upper : (b a : Str) → at_most a b ≡ true → effective_upper (some b) (some a) ≡ none
unfolding effective_upper
misordered_upper b a h = rw h

-- Above a bound of digits with no upper one, or with an upper one that is not above it, `between`
-- returns one and the same key, which is above the lower bound.
pub between_unbounded :
    (b a : Str)
    → Digits b
    → at_most a b ≡ true
    → (k : Str) × (between (some b) none ≡ done k)
      × (between (some b) (some a) ≡ done k)
      × Before b k
unfolding key_for effective_upper bytes_ord cmp_bytes
between_unbounded b a d h = (
  above b,
  between_key (some b) none,
  between_key (some b) (some a) ∙ ap (λ u. done (key_for b u)) (misordered_upper b a h),
  above-gt b d,
)
