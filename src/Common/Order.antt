-- ===== src/Common/Order.antt =====
-- The bound `Ord` of the standard library, with the laws that the trait asks for, and the orders
-- that the program compares by: numbers, byte strings, pairs, and orders derived along a key.
use Prim.Native.Nat.{ℕ, compare, Ordering}
use Prim.Native.Nat.Ordering.{lt, eq, gt}
use mathlib.Core.Path.{◌≡◌, refl}
use mathlib.Core.Bool.{Bool, true, false}
use mathlib.Core.List.{List, [], ◌∷◌}
use native.Mathlib.Omega.{arith}

-- `Ordering::reverse`.
abbrev pub reverse : Ordering → Ordering
reverse lt = gt
reverse eq = eq
reverse gt = lt

-- `Ordering::then`.
abbrev pub then_cmp : Ordering → Ordering → Ordering
then_cmp lt o = lt
then_cmp eq o = o
then_cmp gt o = gt

pub record IsTotal {ℓ} {A : Type ℓ} (cmp : A → A → Ordering) : Type ℓ where
  pub eq_self : (a : A) → cmp a a ≡ eq
  pub same : (a b : A) → cmp a b ≡ eq → a ≡ b
  pub flipped : (a b : A) → cmp b a ≡ reverse (cmp a b)
  pub chain : (a b c : A) → cmp a b ≡ lt → cmp b c ≡ lt → cmp a c ≡ lt

pub record Ord {ℓ} (A : Type ℓ) : Type ℓ where
  pub cmp : A → A → Ordering
  pub total : IsTotal cmp
  pub open total use *

module _ {ℓ} {A : Type ℓ} ⦃o : Ord A⦄ where
  -- `a < b`, `a <= b` and `a == b` as tests.
  abbrev pub before : A → A → Bool
  before a b = elim (o.cmp a b) [ lt ↦ true | _ ↦ false ]

  abbrev pub at_most : A → A → Bool
  at_most a b = elim (o.cmp a b) [ gt ↦ false | _ ↦ true ]

  abbrev pub equals : A → A → Bool
  equals a b = elim (o.cmp a b) [ eq ↦ true | _ ↦ false ]

  -- `Ord::max`, which returns its second argument where the two compare equal.
  abbrev pub greater : A → A → A
  greater a b = elim (o.cmp a b) [ gt ↦ a | _ ↦ b ]

  abbrev pub Before : A → A → Type 0
  Before a b = o.cmp a b ≡ lt

  pub same_of_equals : (a b : A) → equals a b ≡ true → a ≡ b
  same_of_equals a b h = o.same a b (ground arith)

  pub equals_self : (a : A) → equals a a ≡ true
  equals_self a = ground (arith, o.eq_self a)

pub compare-IsTotal : IsTotal compare
compare-IsTotal = ground arith

instance unfoldable pub nat_ord : Ord ℕ
nat_ord = record { cmp = compare; total = compare-IsTotal }

module _ {ℓ κ} {A : Type ℓ} {B : Type κ} ⦃a : Ord A⦄ ⦃b : Ord B⦄ where
  abbrev pub cmp_pair : A × B → A × B → Ordering
  cmp_pair x y = then_cmp (a.cmp x.0 y.0) (b.cmp x.1 y.1)

  same_pair : (x y : A × B) → cmp_pair x y ≡ eq → x ≡ y
  same_pair x y h = ground (arith, a.same x.0 y.0, b.same x.1 y.1)

  flipped_pair : (x y : A × B) → cmp_pair y x ≡ reverse (cmp_pair x y)
  flipped_pair x y = ground (arith, a.flipped x.0 y.0, b.flipped x.1 y.1)

  chain_pair : (x y z : A × B) → cmp_pair x y ≡ lt → cmp_pair y z ≡ lt → cmp_pair x z ≡ lt
  chain_pair x y z h k =
      ground (arith, a.same x.0 y.0, a.same y.0 z.0, a.chain x.0 y.0 z.0, b.chain x.1 y.1 z.1)

  pub cmp_pair-IsTotal : IsTotal cmp_pair
  cmp_pair-IsTotal = record {
    eq_self = λ x. ground (arith, a.eq_self x.0, b.eq_self x.1);
    same = same_pair;
    flipped = flipped_pair;
    chain = chain_pair;
  }

  instance unfoldable pub pair_ord : Ord (A × B)
  pair_ord = record { cmp = cmp_pair; total = cmp_pair-IsTotal }

-- Slices and strings compare lexicographically, byte by byte.
unfoldable pub cmp_bytes : List ℕ → List ℕ → Ordering
cmp_bytes [] [] = eq
cmp_bytes [] (y ∷ ys) = lt
cmp_bytes (x ∷ xs) [] = gt
cmp_bytes (x ∷ xs) (y ∷ ys) = then_cmp (compare x y) (cmp_bytes xs ys)

self_bytes : (xs : List ℕ) → cmp_bytes xs xs ≡ eq
unfolding cmp_bytes
self_bytes [] = refl
self_bytes (x ∷ xs) = ground (arith, self_bytes xs)

same_bytes : (xs ys : List ℕ) → cmp_bytes xs ys ≡ eq → xs ≡ ys
unfolding cmp_bytes
same_bytes [] [] h = refl
same_bytes [] (y ∷ ys) h = cc
same_bytes (x ∷ xs) [] h = cc
same_bytes (x ∷ xs) (y ∷ ys) h = ground (arith, same_bytes xs ys)

flipped_bytes : (xs ys : List ℕ) → cmp_bytes ys xs ≡ reverse (cmp_bytes xs ys)
unfolding cmp_bytes
flipped_bytes [] [] = refl
flipped_bytes [] (y ∷ ys) = refl
flipped_bytes (x ∷ xs) [] = refl
flipped_bytes (x ∷ xs) (y ∷ ys) = ground (arith, flipped_bytes xs ys)

chain_bytes :
    (xs ys zs : List ℕ) → cmp_bytes xs ys ≡ lt → cmp_bytes ys zs ≡ lt → cmp_bytes xs zs ≡ lt
unfolding cmp_bytes
chain_bytes [] [] zs h k = cc
chain_bytes [] (y ∷ ys) [] h k = cc
chain_bytes [] (y ∷ ys) (z ∷ zs) h k = refl
chain_bytes (x ∷ xs) [] zs h k = cc
chain_bytes (x ∷ xs) (y ∷ ys) [] h k = cc
chain_bytes (x ∷ xs) (y ∷ ys) (z ∷ zs) h k = ground (arith, chain_bytes xs ys zs)

pub cmp_bytes-IsTotal : IsTotal cmp_bytes
cmp_bytes-IsTotal = record {
  eq_self = self_bytes;
  same = same_bytes;
  flipped = flipped_bytes;
  chain = chain_bytes;
}

instance unfoldable pub bytes_ord : Ord (List ℕ)
bytes_ord = record { cmp = cmp_bytes; total = cmp_bytes-IsTotal }

-- An order along a key that determines the value.
pub key-IsTotal {ℓ κ} :
    {A : Type ℓ} {B : Type κ} ⦃b : Ord B⦄ (key : A → B)
    → ((x y : A) → key x ≡ key y → x ≡ y)
    → IsTotal (λ x y. b.cmp (key x) (key y))
key-IsTotal ⦃b⦄ key inj = record {
  eq_self = λ x. b.eq_self (key x);
  same = λ x y h. inj x y (b.same (key x) (key y) h);
  flipped = λ x y. b.flipped (key x) (key y);
  chain = λ x y z. b.chain (key x) (key y) (key z);
}
