-- ===== src/Common/Map/Merge/Laws.antt =====
-- What the merging loop leaves: at each key the merge of what the two maps hold there.
use mathlib.Core.Path.{◌≡◌, refl, sym, ap, subst, ◌∙◌}
use mathlib.Core.Bool.{Bool, false}
use mathlib.Core.List.{[], ◌∷◌}
use mathlib.Core.Logic.{◌↔◌, inl, inr}
use mathlib.Core.Option.{Option, none, some}
use native.Mathlib.Omega.{arith}
use k_board.Common.Tests.{if◌then◌else◌, Option-cases, Bool-cases}
use k_board.Common.Order.{Ord, equals, same_of_equals}
use k_board.Common.Map.{Map, lookup, IsSorted, Above}
use k_board.Common.Map.Laws.{
  lookup-insert, insert-IsSorted, Map-ext, lookup_tail, lookup_head, lookup_nil, insert_same,
  lookup_of_tail,
}
use k_board.Common.Map.Merge.{join, join?, merge_entry, merge_with}

pub join?-none {κ} : {V : Type κ} (merge : V → V → V × Bool) (a : Option V) → join? merge a none ≡ a
join?-none merge none = refl
join?-none merge (some a) = refl

module _ {ℓ κ} {K : Type ℓ} {V : Type κ} ⦃o : Ord K⦄ (merge : V → V → V × Bool) where
  -- One turn writes at its own key alone.
  pub lookup-merge_entry :
      (j k : K) (v : V) (m : Map K V)
      → lookup j (merge_entry merge m k v).0
        ≡ (if equals j k then join? merge (lookup k m) (some v) else lookup j m)
  unfolding merge_entry
  lookup-merge_entry j k v m = elim (Option-cases (lookup k m)) [
    | inl absent ↦ rw (absent, merge_entry) (lookup-insert j k v m)
    | inr (w, present) ↦ rw (present, merge_entry) (lookup-insert j k (join merge w v) m)
  ]

  pub merge_entry-IsSorted :
      (k : K) (v : V) (m : Map K V) → IsSorted m → IsSorted (merge_entry merge m k v).0
  unfolding merge_entry
  merge_entry-IsSorted k v m s = elim (Option-cases (lookup k m)) [
    | inl absent ↦ rw (absent, merge_entry) (insert-IsSorted k v m s)
    | inr (w, present) ↦ rw (present, merge_entry) (insert-IsSorted k (join merge w v) m s)
  ]

  pub merge_with-IsSorted : (m n : Map K V) → IsSorted m → IsSorted (merge_with merge m n).0
  unfolding merge_with
  merge_with-IsSorted m [] s = s
  merge_with-IsSorted m ((k, v) ∷ n) s =
      merge_with-IsSorted (merge_entry merge m k v).0 n (merge_entry-IsSorted k v m s)

  -- At the key of the entry the rest of the loop does nothing; elsewhere the entry does nothing.
  one_turn :
      (j k : K) (v : V) (m n : Map K V)
      → join? merge
          (if equals j k then join? merge (lookup k m) (some v) else lookup j m)
          (if equals j k then none else lookup j ((k, v) ∷ n))
        ≡ join? merge (lookup j m) (lookup j ((k, v) ∷ n))
  one_turn j k v m n = elim (Bool-cases (equals j k)) [
    | inl here ↦
        rw (here, same_of_equals j k here, lookup_head)
          (join?-none merge (join? merge (lookup k m) (some v)))
    | inr there ↦ rw there
  ]

  -- At each key, the merge of what the two maps hold there.
  pub lookup-merge_with :
      (j : K) (m n : Map K V)
      → IsSorted n
      → lookup j (merge_with merge m n).0 ≡ join? merge (lookup j m) (lookup j n)
  unfolding merge_with
  lookup-merge_with j m [] s = rw (lookup_nil, join?-none)
  lookup-merge_with j m ((k, v) ∷ n) s =
      lookup-merge_with j (merge_entry merge m k v).0 n s.1
      ∙ rw (lookup-merge_entry j k v m, lookup_tail j k v n s.0) (one_turn j k v m n)

  -- The merged map does not depend on the order of two maps that merge so at each key.
  pub merge_with_comm :
      (m n : Map K V)
      → IsSorted m
      → IsSorted n
      → ((k : K) → join? merge (lookup k m) (lookup k n) ≡ join? merge (lookup k n) (lookup k m))
      → (merge_with merge m n).0 ≡ (merge_with merge n m).0
  merge_with_comm m n s t h =
      Map-ext _ _ (merge_with-IsSorted m n s) (merge_with-IsSorted n m t)
        λ k. lookup-merge_with k m n t ∙ h k ∙ sym (lookup-merge_with k n m s)

  pub merge_with_assoc :
      (l m n : Map K V)
      → IsSorted l
      → IsSorted m
      → IsSorted n
      → ((k : K)
          → join? merge (join? merge (lookup k l) (lookup k m)) (lookup k n)
            ≡ join? merge (lookup k l) (join? merge (lookup k m) (lookup k n)))
      → (merge_with merge (merge_with merge l m).0 n).0
        ≡ (merge_with merge l (merge_with merge m n).0).0
  merge_with_assoc l m n r s t h =
      let lm = (merge_with merge l m).0 in
      let mn = (merge_with merge m n).0 in
      Map-ext _ _ (merge_with-IsSorted lm n (merge_with-IsSorted l m r))
        (merge_with-IsSorted l mn r)
        λ k.
          lookup-merge_with k lm n t
          ∙ ap (λ a. join? merge a (lookup k n)) (lookup-merge_with k l m s)
          ∙ h k
          ∙ ap (join? merge (lookup k l)) (sym (lookup-merge_with k m n t))
          ∙ sym (lookup-merge_with k l mn (merge_with-IsSorted m n s))

  -- Merging in what is there already gives the map back.
  pub merge_with_absorb :
      (m n : Map K V)
      → IsSorted m
      → IsSorted n
      → ((k : K) → join? merge (lookup k m) (lookup k n) ≡ lookup k m)
      → (merge_with merge m n).0 ≡ m
  merge_with_absorb m n s t h =
      Map-ext _ _ (merge_with-IsSorted m n s) s (λ k. lookup-merge_with k m n t ∙ h k)

  -- A turn that reports no change makes none.
  pub merge_entry_quiet :
      (k : K) (v : V) (m : Map K V)
      → ((a : V) → lookup k m ≡ some a → (merge a v).1 ≡ false → join merge a v ≡ a)
      → (merge_entry merge m k v).1 ≡ false
      → (merge_entry merge m k v).0 ≡ m
  unfolding merge_entry
  merge_entry_quiet k v m law = elim (Option-cases (lookup k m)) [
    | inl absent ↦ rw (absent, merge_entry) (λ h. cc)
    | inr (a, present) ↦
        rw (present, merge_entry)
          (λ h. insert_same k (join merge a v) m (present ∙ ap some (sym (law a present h))))
  ]

  -- A turn that leaves what is read at its key reports no change.
  merge_entry_still :
      (k : K) (v : V) (m : Map K V)
      → ((a : V) → lookup k m ≡ some a → join merge a v ≡ a → (merge a v).1 ≡ false)
      → join? merge (lookup k m) (some v) ≡ lookup k m
      → (merge_entry merge m k v).1 ≡ false
  unfolding merge_entry
  merge_entry_still k v m law = elim (Option-cases (lookup k m)) [
    | inl absent ↦ rw (absent, merge_entry) (λ h. cc)
    | inr (a, present) ↦ rw (present, merge_entry) (λ h. law a present (cc))
  ]

  -- Merging two values reports a change exactly when it makes one, at the keys of both maps.
  abbrev pub IsHonest : Map K V → Map K V → Type (ℓ ⊔ κ)
  IsHonest m n =
      (k : K) (a b : V)
      → lookup k m ≡ some a
      → lookup k n ≡ some b
      → ((merge a b).1 ≡ false) ↔ (join merge a b ≡ a)

  IsHonest-tail :
      (k : K) (v : V) (m n : Map K V) → Above k n → IsHonest m ((k, v) ∷ n) → IsHonest m n
  IsHonest-tail k v m n above h i a b p q = h i a b p (lookup_of_tail i k v b n above q)

  quiet :
      (m n : Map K V)
      → IsSorted n
      → IsHonest m n
      → (merge_with merge m n).1 ≡ false
      → (merge_with merge m n).0 ≡ m
  unfolding merge_with
  quiet m [] s law h = refl
  quiet m ((k, v) ∷ n) s law h =
      let m' = (merge_entry merge m k v).0 in
      let e : m' ≡ m =
        merge_entry_quiet k v m (λ a p. (law k a v p (lookup_head k v n)).0) (ground arith) in
      let later : (merge_with merge m' n).1 ≡ false = ground arith in
      ap (λ l. (merge_with merge l n).0) e
      ∙ quiet m n s.1 (IsHonest-tail k v m n s.0 law)
          (subst (λ l. (merge_with merge l n).1 ≡ false) e later)

  join_tail :
      (j k : K) (v : V) (m n : Map K V)
      → Above k n
      → join? merge (lookup j m) (lookup j ((k, v) ∷ n)) ≡ lookup j m
      → join? merge (lookup j m) (lookup j n) ≡ lookup j m
  join_tail j k v m n above h = elim (Bool-cases (equals j k)) [
    | inl here ↦ rw (lookup_tail j k v n above, here) (join?-none merge (lookup j m))
    | inr there ↦ rw (lookup_tail j k v n above, there) h
  ]

  still :
      (m n : Map K V)
      → IsSorted n
      → IsHonest m n
      → ((k : K) → join? merge (lookup k m) (lookup k n) ≡ lookup k m)
      → (merge_with merge m n).1 ≡ false
  unfolding merge_with
  still m [] s law h = refl
  still m ((k, v) ∷ n) s law h =
      let here = ap (join? merge (lookup k m)) (sym (lookup_head k v n)) ∙ h k in
      let silent : (merge_entry merge m k v).1 ≡ false =
        merge_entry_still k v m (λ a p. (law k a v p (lookup_head k v n)).1) here in
      let e : (merge_entry merge m k v).0 ≡ m =
        merge_entry_quiet k v m (λ a p. (law k a v p (lookup_head k v n)).0) silent in
      let rest : (j : K) → join? merge (lookup j m) (lookup j n) ≡ lookup j m =
        λ j. join_tail j k v m n s.0 (h j) in
      rw silent (rw e (still m n s.1 (IsHonest-tail k v m n s.0 law) rest))

  -- The loop reports a change exactly when it makes one.
  pub merge_with-changed :
      (m n : Map K V)
      → IsSorted n
      → IsHonest m n
      → ((merge_with merge m n).1 ≡ false) ↔ ((merge_with merge m n).0 ≡ m)
  merge_with-changed m n s law = (
    quiet m n s law,
    λ e. still m n s law (λ k. sym (lookup-merge_with k m n s) ∙ ap (lookup k) e),
  )
