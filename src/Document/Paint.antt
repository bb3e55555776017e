-- ===== src/Document/Paint.antt =====
-- Paint order and the key of a new top element: crates/kboard-core/src/document.rs, `ordered` and
-- `z_index_for_top`.
use mathlib.Core.List.{Perm, perm_middle}
use mathlib.Core.List.Perm
use Prim.Native.Nat.Ordering.{lt, eq, gt}
use k_board.Common.{
  ℕ, true, List, [], ◌∷◌, Option, none, some, unwrap_or, map_or, last, ◌≡◌, ◌≢◌, ◌↔◌, refl, ap, ◌∙◌,
  arith, All, Bool, Bool-cases, filter, not, inl, inr, ◌++◌,
}
use k_board.Common.Order.{Ord, bytes_ord, nat_ord, pair_ord, at_most, Before}
use k_board.Common.Text.{Str}
use k_board.Element
use k_board.Element.{Element}
use k_board.Document.{
  Document, live, cmp_paint, place, sort_paint, ordered, filled, top_key, z_index_for_top,
}
use k_board.Document.Shown.{IsErased, IsUnder, deleted_iff, cmp-IsUnder}
use k_board.Common.Map
use k_board.Frac.{done}
use k_board.Frac.Digit.{Digits}
use k_board.Frac.Rounds.{above}
use k_board.Frac.Between.{IsKey, above-IsKey, above-gt}
use k_board.Frac.Bounds.{between-above}

-- What elements are painted by.
abbrev paint_key : Element → Str × ℕ
paint_key e = (Element.z_index e, e.id)

abbrev keys : Ord (Str × ℕ)
keys = pair_ord ⦃a = bytes_ord⦄ ⦃b = nat_ord⦄

cmp_paint_lem : (e f : Element) → cmp_paint e f ≡ keys.cmp (paint_key e) (paint_key f)
unfolding cmp_paint pair_ord bytes_ord
cmp_paint_lem e f = refl

-- Each element is painted before those that compare above it, and after none of the rest.
abbrev pub IsPainted : List Element → Type 0
IsPainted [] = Unit
IsPainted (e ∷ es) = All (λ f. cmp_paint e f ≢ gt) es × IsPainted es

All-place :
    (P : Element → Type 0) (e : Element) (es : List Element) → All P (place e es) ↔ (P e × All P es)
unfolding place
All-place P e [] = ground arith
All-place P e (f ∷ es) = ground (arith, All-place P e es)

All-sort : (P : Element → Type 0) (es : List Element) → All P (sort_paint es) ↔ All P es
unfolding sort_paint
All-sort P [] = ground arith
All-sort P (e ∷ es) = ground (arith, All-place P e (sort_paint es), All-sort P es)

All-map :
    (P Q : Element → Type 0) (es : List Element) → ((e : Element) → P e → Q e) → All P es → All Q es
All-map P Q [] h a = tt
All-map P Q (e ∷ es) h a = (h e a.0, All-map P Q es h a.1)

paint_trans : (e f g : Element) → cmp_paint e f ≢ gt → cmp_paint f g ≢ gt → cmp_paint e g ≢ gt
paint_trans e f g h k =
    let a = paint_key e in
    let b = paint_key f in
    let c = paint_key g in
    ground (
      arith,
      cmp_paint_lem e f,
      cmp_paint_lem f g,
      cmp_paint_lem e g,
      keys.chain a b c,
      keys.same a b,
      keys.same b c,
    )

paint_flip : (e f : Element) → cmp_paint e f ≡ gt → cmp_paint f e ≢ gt
paint_flip e f h =
    ground (arith, cmp_paint_lem e f, cmp_paint_lem f e, keys.flipped (paint_key e) (paint_key f))

place-IsPainted : (e : Element) (es : List Element) → IsPainted es → IsPainted (place e es)
unfolding place
place-IsPainted e [] s = (tt, tt)
place-IsPainted e (f ∷ es) s =
    let before_rest : cmp_paint e f ≢ gt → All (λ g. cmp_paint e g ≢ gt) es =
      λ n. All-map _ _ es (λ g. paint_trans e f g n) s.0 in
    let after_first : cmp_paint e f ≡ gt → All (λ g. cmp_paint f g ≢ gt) (place e es) =
      λ h. (All-place (λ g. cmp_paint f g ≢ gt) e es).1 (paint_flip e f h, s.0) in
    ground (arith, place-IsPainted e es s.1)

sort-IsPainted : (es : List Element) → IsPainted (sort_paint es)
unfolding sort_paint
sort-IsPainted [] = tt
sort-IsPainted (e ∷ es) = place-IsPainted e (sort_paint es) (sort-IsPainted es)

place-Perm : (e : Element) (es : List Element) → Perm (place e es) (e ∷ es)
unfolding place
place-Perm e [] = Perm.refl _
place-Perm e (f ∷ es) =
    elim (cmp_paint e f)
      as (λ o. Perm (elim o [ gt ↦ f ∷ place e es | _ ↦ e ∷ f ∷ es ]) (e ∷ f ∷ es)) [
        | gt ↦ Perm.trans (Perm.cons f (place-Perm e es)) (Perm.swap e f es)
        | lt ↦ Perm.refl _
        | eq ↦ Perm.refl _
      ]

sort-Perm : (es : List Element) → Perm (sort_paint es) es
unfolding sort_paint
sort-Perm [] = Perm.refl []
sort-Perm (e ∷ es) = Perm.trans (place-Perm e (sort_paint es)) (Perm.cons e (sort-Perm es))

-- What a test picks and what it leaves are together what there was.
filter-Perm :
    (p : Element → Bool) (es : List Element) → Perm (filter (λ e. not (p e)) es ++ filter p es) es
filter-Perm p [] = Perm.refl []
filter-Perm p (e ∷ es) = elim (Bool-cases (p e)) [
  | inl gone ↦
      rw (gone, filter)
        (Perm.trans (perm_middle (filter (λ e. not (p e)) es) (filter p es))
          (Perm.cons e (filter-Perm p es)))
  | inr here ↦ rw (here, filter) (Perm.cons e (filter-Perm p es))
]

All-live :
    (es : List Element) → All (λ e. ¬ IsErased e) (filter (λ e. not (Element.is_deleted e)) es)
All-live [] = tt
All-live (e ∷ es) = elim (Bool-cases (Element.is_deleted e)) [
  | inl gone ↦ rw (gone, filter) (All-live es)
  | inr here ↦ rw (here, filter) (λ h. cc (here, (deleted_iff e).1 h), All-live es)
]

All-IsErased : (es : List Element) → All IsErased (filter Element.is_deleted es)
All-IsErased [] = tt
All-IsErased (e ∷ es) = elim (Bool-cases (Element.is_deleted e)) [
  | inl gone ↦ rw (gone, filter) ((deleted_iff e).0 gone, All-IsErased es)
  | inr here ↦ rw (here, filter) (All-IsErased es)
]

-- No element is painted after one that it lies under.
abbrev pub IsBottomUp : List Element → Type 0
IsBottomUp [] = Unit
IsBottomUp (e ∷ es) = All (IsUnder e) es × IsBottomUp es

painted-IsBottomUp : (es : List Element) → IsPainted es → IsBottomUp es
painted-IsBottomUp [] s = tt
painted-IsBottomUp (e ∷ es) s = (All-map _ _ es (cmp-IsUnder e) s.0, painted-IsBottomUp es s.1)

-- Paint order has the elements of the document whose property `deleted` is not true, each as often as
-- the document has it, and only those that are left out have it true. Of two, the one with the lesser
-- text for its z-order comes first, and where these are equal, the one with the lesser id.
pub ordered_lem :
    (d : Document)
    → (erased : List Element) × Perm (ordered d ++ erased) (Map.values d.elements)
      × All (λ e. ¬ IsErased e) (ordered d)
      × All IsErased erased
      × IsBottomUp (ordered d)
unfolding ordered live
ordered_lem d =
    let es = Map.values d.elements in
    let erased = filter Element.is_deleted es in
    (
      erased,
      Perm.trans
          (Perm.append_right erased (sort-Perm (filter (λ e. not (Element.is_deleted e)) es)))
          (filter-Perm Element.is_deleted es),
      (All-sort (λ e. ¬ IsErased e) _).1 (All-live es),
      All-IsErased es,
      painted-IsBottomUp _ (sort-IsPainted _),
    )

-- The z-order key of the last of a list of elements.
last_key : List Element → Str
last_key es = map_or [] Element.z_index (last es)

z_index-cmp :
    (e f : Element) → cmp_paint e f ≢ gt → at_most (Element.z_index e) (Element.z_index f) ≡ true
unfolding cmp_paint bytes_ord
z_index-cmp e f h = ground arith

at_most_trans : (a b c : Str) → at_most a b ≡ true → at_most b c ≡ true → at_most a c ≡ true
at_most_trans a b c h k =
    ground (arith, bytes_ord.chain a b c, bytes_ord.same a b, bytes_ord.same b c)

below_above : (a b c : Str) → at_most a b ≡ true → Before b c → Before a c
below_above a b c h k = ground (arith, bytes_ord.chain a b c, bytes_ord.same a b)

at_most_last :
    (es : List Element)
    → IsPainted es
    → All (λ e. at_most (Element.z_index e) (last_key es) ≡ true) es
unfolding last_key
at_most_last [] s = tt
at_most_last (e ∷ []) s = (ground (arith, bytes_ord.eq_self (Element.z_index e)), tt)
at_most_last (e ∷ f ∷ es) s =
    let ih = at_most_last (f ∷ es) s.1 in
    let first = z_index-cmp e f s.0.0 in
    (at_most_trans (Element.z_index e) (Element.z_index f) (last_key (f ∷ es)) first ih.0, ih)

filled_key : (key : Option Str) → unwrap_or [] (filled key) ≡ unwrap_or [] key
filled_key none = refl
filled_key (some []) = refl
filled_key (some (b ∷ key)) = refl

top_key_lem : (d : Document) → unwrap_or [] (top_key d) ≡ last_key (ordered d)
unfolding top_key last_key
top_key_lem d =
    elim (last (ordered d))
      as (λ o.
        unwrap_or [] (elim o [ none ↦ none | some e ↦ some (Element.z_index e) ])
        ≡ map_or [] Element.z_index o) [ none ↦ refl | some e ↦ refl ]

z_index_for_top_key : (d : Document) → z_index_for_top d ≡ done (above (last_key (ordered d)))
unfolding z_index_for_top
z_index_for_top_key d =
    between-above (filled (top_key d))
    ∙ ap (λ k. done (above k)) (filled_key (top_key d) ∙ top_key_lem d)

last_Digits : (es : List Element) → All (λ e. Digits (Element.z_index e)) es → Digits (last_key es)
unfolding last_key
last_Digits [] a = tt
last_Digits (e ∷ []) a = a.0
last_Digits (e ∷ f ∷ es) a = last_Digits (f ∷ es) a.1

cmp_above : (s : Str) → Digits s → Before s (above s)
unfolding bytes_ord
cmp_above s h = above-gt s h

-- Where the z-order keys of the live elements are of digits, the key for a new top element exists, is
-- a key of digits that does not end in a zero, and is above the key of every live element.
pub z_index_for_top_lem :
    (d : Document)
    → All (λ e. Digits (Element.z_index e)) (live d)
    → (k : Str) × (z_index_for_top d ≡ done k)
      × IsKey k
      × All (λ e. Before (Element.z_index e) k) (live d)
unfolding ordered last_key
z_index_for_top_lem d h =
    let top = last_key (sort_paint (live d)) in
    let digits = last_Digits (sort_paint (live d)) ((All-sort _ (live d)).1 h) in
    let highest : Before top (above top) = cmp_above top digits in
    (
      above top,
      z_index_for_top_key d,
      above-IsKey top,
      (All-sort _ (live d)).0 (
          All-map _ _ (sort_paint (live d))
            (λ e low. below_above (Element.z_index e) top (above top) low highest)
            (at_most_last (sort_paint (live d)) (sort-IsPainted (live d)))),
    )
