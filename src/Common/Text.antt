-- ===== src/Common/Text.antt =====
-- `String` and `str` as their UTF-8 bytes. Strings compare byte by byte (`bytes_ord`), and `len`
-- counts bytes.
use Prim.Native.Nat.{ℕ, zero, suc, ◌<◌}
use mathlib.Core.Path.{◌≡◌, refl}
use native.Mathlib.Omega.{arith}
use k_board.Common.Lists.{All}
use Prim.Native.Char.{code}
use Prim.Native.String.{String}
use mathlib.Core.Bool.{Bool, true, false, ◌&&◌}
use mathlib.Core.List.{List, [], ◌∷◌}
use mathlib.Core.Option.{Option, none, some}
use k_board.Common.Tests.{◌==◌, ltb, leb, if◌then◌else◌}

abbrev pub Str : Type 0
Str = List ℕ

-- The bytes of an ASCII literal.
abbrev pub ascii : String → Str
ascii String.[] = []
ascii (String.◌∷◌ c s) = code c ∷ ascii s

-- `str::strip_prefix` at a character of one byte.
abbrev pub strip_prefix : ℕ → Str → Option Str
strip_prefix c [] = none
strip_prefix c (b ∷ s) = if b == c then some s else none

-- What the first byte of a UTF-8 sequence asks for: how many bytes follow, and the range of the
-- next one.
abbrev pub lead : ℕ → Option (ℕ × ℕ × ℕ)
lead b =
    if ltb b 128
    then some (0, 128, 191)
    else if ltb b 194
    then none
    else if ltb b 224
    then some (1, 128, 191)
    else if ltb b 240
    then some (2, if b == 224 then 160 else 128, if b == 237 then 159 else 191)
    else if ltb b 245
    then some (3, if b == 240 then 144 else 128, if b == 244 then 143 else 191)
    else none

-- The check of `String::from_utf8`, with so many bytes of a sequence to come.
unfoldable pub is_utf8_from : ℕ → ℕ → ℕ → List ℕ → Bool
is_utf8_from zero lo hi [] = true
is_utf8_from (suc n) lo hi [] = false
is_utf8_from zero lo hi (b ∷ s) = elim (lead b) [
  | none ↦ false
  | some (n, low, high) ↦ is_utf8_from n low high s
]
is_utf8_from (suc n) lo hi (b ∷ s) = leb lo b && leb b hi && is_utf8_from n 128 191 s

-- `String::from_utf8`, without its error.
unfoldable pub from_utf8 : List ℕ → Option Str
unfolding is_utf8_from
from_utf8 bytes = if is_utf8_from 0 128 191 bytes then some bytes else none

ascii_is_utf8 : (s : List ℕ) → All (λ b. b < 128) s → is_utf8_from 0 128 191 s ≡ true
unfolding is_utf8_from
ascii_is_utf8 [] h = refl
ascii_is_utf8 (b ∷ s) h = ground (arith, ascii_is_utf8 s h.1)

-- ASCII bytes are a string as they stand.
pub from_utf8_ascii : (s : List ℕ) → All (λ b. b < 128) s → from_utf8 s ≡ some s
unfolding from_utf8
from_utf8_ascii s h = rw (ascii_is_utf8 s h)
