-- ===== src/Prop/Key/Wire.antt =====
-- Wire names and back: crates/kboard-core/src/prop.rs, `as_wire` and `from_wire`.
use k_board.Common.{ℕ, List, [], ◌∷◌, Bool, false, ◌||◌, ◌≡◌, refl, arith, if◌then◌else◌, ◌==◌, All}
use k_board.Common.Order.{bytes_ord, cmp_bytes-IsTotal, equals}
use k_board.Common.Text.{Str}
use k_board.Prop.Key.{PropKey, as_wire, from_wire, from_arms, known}
open cmp_bytes-IsTotal use {same, eq_self}

-- A key is read back from its wire name, a custom one with any name of its own included.
pub from_wire-as_wire : (k : PropKey) → from_wire (as_wire k) ≡ k
unfolding from_wire as_wire
from_wire-as_wire PropKey.kind = refl
from_wire-as_wire _ = refl

-- Whether a name is one of the arms.
abbrev pub is_arm : Str → List (Str × PropKey) → Bool
is_arm name [] = false
is_arm name ((arm, key) ∷ arms) = equals name arm || is_arm name arms

abbrev pub has_prefix : ℕ → Str → Bool
has_prefix c [] = false
has_prefix c (b ∷ s) = b == c

abbrev Named : Str × PropKey → Type 0
Named e = as_wire e.1 ≡ e.0

known-Named : All Named known
unfolding as_wire
known-Named = (
  refl,
  (
    refl,
    (
      refl,
      (
        refl,
        (
          refl,
          (
            refl,
            (
              refl,
              (
                refl,
                (
                  refl,
                  (
                    refl,
                    (refl, (refl, (refl, (refl, (refl, (refl, (refl, (refl, (refl, tt))))))))),
                  ),
                ),
              ),
            ),
          ),
        ),
      ),
    ),
  ),
)

as_wire-custom : (name : Str) → as_wire (PropKey.custom name) ≡ b'~' ∷ name
unfolding as_wire
as_wire-custom name = refl

as_wire-from_arms :
    (name : Str) (arms : List (Str × PropKey))
    → All Named arms
    → as_wire (from_arms name arms)
      ≡ (if is_arm name arms || has_prefix b'~' name then name else b'~' ∷ name)
unfolding from_arms
as_wire-from_arms [] [] h = as_wire-custom []
as_wire-from_arms (b ∷ s) [] h = ground (arith, as_wire-custom s, as_wire-custom (b ∷ s))
as_wire-from_arms name ((arm, key) ∷ arms) h =
    ground (arith, as_wire-from_arms name arms h.1, same name arm)

-- A name that is read and written again stays as it was if it is known or begins with a tilde; any
-- other name gains a tilde.
pub as_wire-from_wire :
    (name : Str)
    → as_wire (from_wire name)
      ≡ (if is_arm name known || has_prefix b'~' name then name else b'~' ∷ name)
unfolding from_wire
as_wire-from_wire name = as_wire-from_arms name known known-Named
