-- ===== src/Common/Map/Laws.antt =====
-- The laws of the map: what is read after a write, the order of the keys, and that a sorted map is
-- determined by what is read from it.
use Prim.Native.Nat.Ordering.{eq}
use mathlib.Core.Path.{◌≡◌, refl, sym, ap₂, ◌∙◌}
use mathlib.Core.List.{[], ◌∷◌}
use mathlib.Core.Option.{Option, none, some}
use native.Mathlib.Omega.{arith}
use Prim.Native.Nat.{suc}
use k_board.Common.Tests.{if◌then◌else◌}
use k_board.Common.Lists.{length}
use k_board.Common.Order.{Ord, Before, equals}
use k_board.Common.Map.{Map, lookup, insert, remove, Above, IsSorted}

module _ {ℓ κ} {K : Type ℓ} {V : Type κ} ⦃o : Ord K⦄ where
  -- A read after a write.
  pub lookup-insert :
      (j k : K) (v : V) (m : Map K V)
      → lookup j (insert k v m) ≡ (if equals j k then some v else lookup j m)
  unfolding lookup insert
  lookup-insert j k v [] = ground arith
  lookup-insert j k v ((i, w) ∷ m) = ground (
    arith,
    lookup-insert j k v m,
    o.same k i,
    o.same j k,
    o.same j i,
    o.chain j k i,
    o.chain i k j,
    o.flipped j k,
    o.flipped j i,
    o.flipped k i,
  )

  pub Above-trans : {j k : K} (m : Map K V) → Before j k → Above k m → Above j m
  Above-trans [] h a = tt
  Above-trans {j} {k} ((i, w) ∷ m) h a = (o.chain j k i h a.0, Above-trans m h a.1)

  Above-insert : (j k : K) (v : V) (m : Map K V) → Before j k → Above j m → Above j (insert k v m)
  unfolding insert
  Above-insert j k v [] h a = (h, tt)
  Above-insert j k v ((i, w) ∷ m) h a = ground (arith, Above-insert j k v m)

  pub insert-IsSorted : (k : K) (v : V) (m : Map K V) → IsSorted m → IsSorted (insert k v m)
  unfolding insert
  insert-IsSorted k v [] s = (tt, tt)
  insert-IsSorted k v ((i, w) ∷ m) s = ground (
    arith,
    insert-IsSorted k v m,
    o.same k i,
    o.flipped k i,
    Above-insert i k v m,
    Above-trans {j = k} {k = i} m,
  )

  Above-remove : (j k : K) (m : Map K V) → Above j m → Above j (remove k m)
  unfolding remove
  Above-remove j k [] a = tt
  Above-remove j k ((i, w) ∷ m) a = ground (arith, Above-remove j k m)

  pub remove-IsSorted : (k : K) (m : Map K V) → IsSorted m → IsSorted (remove k m)
  unfolding remove
  remove-IsSorted k [] s = tt
  remove-IsSorted k ((i, w) ∷ m) s = ground (arith, remove-IsSorted k m, Above-remove i k m)

  pub lookup-Above : (k : K) (m : Map K V) → Above k m → lookup k m ≡ none
  unfolding lookup
  lookup-Above k [] a = refl
  lookup-Above k ((i, w) ∷ m) a = ground arith

  pub lookup_below : (j k : K) (m : Map K V) → Before j k → Above k m → lookup j m ≡ none
  lookup_below j k m h a = lookup-Above j m (Above-trans m h a)

  -- A read after a removal.
  pub lookup-remove :
      (j k : K) (m : Map K V)
      → IsSorted m
      → lookup j (remove k m) ≡ (if equals j k then none else lookup j m)
  unfolding lookup remove
  lookup-remove j k [] s = ground arith
  lookup-remove j k ((i, w) ∷ m) s = ground (
    arith,
    lookup-remove j k m,
    lookup-Above j m,
    o.same k i,
    o.same j k,
    o.same j i,
    o.chain j k i,
    o.chain i k j,
    o.flipped j k,
    o.flipped j i,
    o.flipped k i,
    Above-trans {j = j} {k = i} m,
  )

  pub lookup_nil : (k : K) → lookup {V = V} k [] ≡ none
  unfolding lookup
  lookup_nil k = refl

  pub lookup_head : (k : K) (v : V) (m : Map K V) → lookup k ((k, v) ∷ m) ≡ some v
  unfolding lookup
  lookup_head k v m = ground (arith, o.eq_self k)

  pub lookup_tail :
      (i k : K) (v : V) (m : Map K V)
      → Above k m
      → lookup i m ≡ (if equals i k then none else lookup i ((k, v) ∷ m))
  unfolding lookup
  lookup_tail i k v m a =
      ground (arith, o.same i k, lookup-Above i m, Above-trans {j = i} {k = k} m)

  -- What the tail holds, the map holds.
  pub lookup_of_tail :
      (i k : K) (v w : V) (m : Map K V)
      → Above k m
      → lookup i m ≡ some w
      → lookup i ((k, v) ∷ m) ≡ some w
  lookup_of_tail i k v w m a h = ground (arith, lookup_tail i k v m a)

  heads_meet :
      (k j : K) (v w : V) (m n : Map K V)
      → ((i : K) → lookup i ((k, v) ∷ m) ≡ lookup i ((j, w) ∷ n))
      → o.cmp k j ≡ eq
  unfolding lookup
  heads_meet k j v w m n same =
      ground (arith, same k, same j, o.eq_self k, o.eq_self j, o.flipped k j)

  -- Writing what is already there changes nothing.
  pub insert_same : (k : K) (v : V) (m : Map K V) → lookup k m ≡ some v → insert k v m ≡ m
  unfolding lookup insert
  insert_same k v [] h = cc
  insert_same k v ((j, w) ∷ m) h = ground (arith, insert_same k v m, o.same k j)

  tails_meet :
      (k j : K) (v w : V) (m n : Map K V)
      → k ≡ j
      → Above k m
      → Above j n
      → ((i : K) → lookup i ((k, v) ∷ m) ≡ lookup i ((j, w) ∷ n))
      → (i : K) → lookup i m ≡ lookup i n
  tails_meet k j v w m n e a b agree i =
      lookup_tail i k v m a
      ∙ ap₂ (λ x (l : Option V). if equals i x then none else l) e (agree i)
      ∙ sym (lookup_tail i j w n b)

  -- Two sorted maps from which the same is read are equal.
  pub Map-ext :
      (m n : Map K V) → IsSorted m → IsSorted n → ((k : K) → lookup k m ≡ lookup k n) → m ≡ n
  Map-ext [] [] s t agree = refl
  Map-ext [] ((j, w) ∷ n) s t agree = cc (agree j, lookup_head j w n, lookup_nil j)
  Map-ext ((k, v) ∷ m) [] s t agree = cc (agree k, lookup_head k v m, lookup_nil k)
  Map-ext ((k, v) ∷ m) ((j, w) ∷ n) s t agree =
      let e : k ≡ j = o.same k j (heads_meet k j v w m n agree) in
      let f : v ≡ w = cc (agree k, e, lookup_head k v m, lookup_head j w n) in
      let tails : m ≡ n = Map-ext m n s.1 t.1 (tails_meet k j v w m n e s.0 t.0 agree) in
      λ i. (e i, f i) ∷ tails i

  -- Writes grow the map by one entry at most, and not where the key is held.
  pub length-insert :
      (k : K) (v : V) (m : Map K V)
      → length (insert k v m) ≡ (elim (lookup k m) [ none ↦ suc (length m) | some w ↦ length m ])
  unfolding lookup insert
  length-insert k v [] = refl
  length-insert k v ((j, w) ∷ m) = ground (arith, length-insert k v m)
