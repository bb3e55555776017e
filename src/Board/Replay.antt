-- ===== src/Board/Replay.antt =====
-- What the board's own writes do while its clock is not behind the document:
-- crates/kboard-ffi/src/board.rs, `stamp` and `record`.
use Prim.Native.Nat.Ordering.{lt, gt}
use k_board.Common.{
  ℕ, ◌+◌, ◌≤◌, Bool, ◌&&◌, List, [], ◌∷◌, Option, none, some, length, ◌≡◌, ◌≢◌, refl, ap, sym,
  subst, ◌∙◌, arith, if◌then◌else◌,
}
use k_board.Common.Order.{equals, nat_ord, same_of_equals}
use k_board.Clock.{Hlc, HlcGenerator, cmp_hlc, tick, u32_max}
use k_board.Clock.Order.{hlc_ord, cmp_hlc-IsTotal}
use k_board.Lww
use k_board.Lww.{Lww}
use k_board.Prop.Key.{PropKey}
use k_board.Prop.Key.Order.{key_ord}
use k_board.Prop.Value.{PropValue, is_valid}
use k_board.Element
use k_board.Element.{ElementId, Register}
use k_board.Element.Invariant.{register, register-set}
use k_board.Element.Outcome.{Beats, beaten_yields}
use k_board.Document.{Document, entry_set}
use k_board.Document.Invariant.{held_or_new}
use k_board.Document.Write.{held_or_new-entry_set}
use k_board.Op.{StampedOp}
use k_board.Op.Build.{tick-rises, tick-counter}
use k_board.Op.Replay.{
  replay, replay-cons, after-written, target, field, payload, replay-nil, written,
}
use k_board.Board.{Reversal, op_of, stamp_all}
open cmp_hlc-IsTotal use {same, chain, flipped}

-- The register under a key of an element, and its value.
abbrev pub register_at : Document → ElementId → PropKey → Option Register
register_at d id key = register (held_or_new d id) key

abbrev pub reading : Document → ElementId → PropKey → Option PropValue
reading d id key = Element.get (held_or_new d id) key

-- No register of a document has a stamp above a given one.
abbrev pub IsBehind : Document → Hlc → Type 0
IsBehind d t =
    (id : ElementId) (key : PropKey) (r : Register)
    → register_at d id key ≡ some r
    → cmp_hlc r.stamp t ≢ gt

abbrev pub hits : ElementId → PropKey → PropValue → ElementId → PropKey → Bool
hits id key v j k = is_valid v && (equals j id && equals k key)

behind-Beats :
    (a : Option Register) (s t : Hlc)
    → ((r : Register) → a ≡ some r → cmp_hlc r.stamp s ≢ gt)
    → cmp_hlc s t ≡ lt
    → Beats a t
behind-Beats none s t h up = tt
behind-Beats (some r) s t h up = ground (arith, h r refl, chain r.stamp s t, same r.stamp s)

-- What a write with a stamp above all leaves in the registers.
register_at-entry_set :
    (d : Document) (id : ElementId) (key : PropKey) (v : PropValue) (s t : Hlc)
    → IsBehind d s
    → cmp_hlc s t ≡ lt
    → (j : ElementId) (k : PropKey)
    → register_at (entry_set d id key v t).0 j k
      ≡ (if hits id key v j k then some (Lww.new v t) else register_at d j k)
register_at-entry_set d id key v s t behind up j k = ground (
  arith,
  held_or_new-entry_set d id key v t j,
  register-set (held_or_new d id) key v t k,
  beaten_yields (register_at d id key) v t (behind-Beats _ s t (behind id key) up),
  same_of_equals j id,
)

get-register :
    (d : Document) (j : ElementId) (k : PropKey) (a : Option Register)
    → register_at d j k ≡ a
    → reading d j k ≡ elim a [ none ↦ none | some r ↦ some r.value ]
unfolding Element.get
get-register d j k a h = ap (λ a. elim a [ none ↦ none | some r ↦ some r.value ]) h

-- What one write leaves, and that the document is still not ahead of the clock.
write_lem :
    (d : Document) (id : ElementId) (key : PropKey) (v : PropValue) (s t : Hlc)
    → IsBehind d s
    → cmp_hlc s t ≡ lt
    → let d' = (entry_set d id key v t).0 in
      IsBehind d' t
      × ((j : ElementId) (k : PropKey)
          → reading d' j k ≡ (if hits id key v j k then some v else reading d j k))
unfolding Element.get Lww.new
write_lem d id key v s t behind up = (
  λ j k r h. ground (
    arith,
    register_at-entry_set d id key v s t behind up j k,
    behind j k r,
    chain r.stamp s t,
    same r.stamp s,
    cmp_hlc-IsTotal.eq_self t,
  ),
  λ j k. ground (arith, register_at-entry_set d id key v s t behind up j k),
)

-- What a reversal writes, and what is read after some of them.
abbrev pub last_set : List Reversal → ElementId → PropKey → Option PropValue → Option PropValue
last_set [] j k before = before
last_set (r ∷ rs) j k before =
    let o = op_of r in
    last_set rs j k (if hits (target o) (field o) (payload o) j k then some (payload o) else before)

-- Reversals that are stamped by a clock that is not behind the document all take effect, in order.
pub stamp_all_lem :
    (d : Document) (clock : HlcGenerator) (rs : List Reversal) (now : ℕ)
    → IsBehind d clock.last
    → clock.last.counter + length rs ≤ u32_max
    → let (clock', ops) = stamp_all clock rs now in
      IsBehind (replay d ops) clock'.last
      × (clock'.last.counter ≤ clock.last.counter + length rs)
      × ((j : ElementId) (k : PropKey)
          → reading (replay d ops) j k ≡ last_set rs j k (reading d j k))
unfolding stamp_all
stamp_all_lem d clock [] now behind room = rw replay-nil (behind, omega arith, λ j k. refl)
stamp_all_lem d clock (r ∷ rs) now behind room =
    let o = op_of r in
    let (next, t) = tick clock now in
    let (up, kept, _) = tick-rises clock now (omega arith) in
    let a : StampedOp = record { stamp = t; op = o } in
    let once = write_lem d (target o) (field o) (payload o) clock.last t behind up in
    let ahead : IsBehind (written d a) next.last =
      subst (IsBehind (written d a)) (sym kept) once.0 in
    let ih =
      stamp_all_lem (written d a) next rs now ahead (omega (arith, tick-counter clock now)) in
    rw (replay-cons, after-written)
      (
        ih.0,
        omega (arith, ih.1, tick-counter clock now),
        λ j k. ih.2 j k ∙ ap (last_set rs j k) (once.1 j k),
      )
