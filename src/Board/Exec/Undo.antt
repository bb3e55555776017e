-- ===== src/Board/Exec/Undo.antt =====
-- Undoing a command: crates/kboard-ffi/src/board.rs, `exec` and `undo`.
use k_board.Common.{
  ℕ, suc, ◌+◌, ◌≤◌, true, false, ◌&&◌, List, [], ◌∷◌, Option, some, map, any, length, ltb, ◌≡◌,
  refl, ap, ◌∙◌, arith, if◌then◌else◌, Bool-cases, Option-cases, inl, inr,
}
use k_board.Common.Order.{equals, nat_ord, same_of_equals, equals_self}
use k_board.Clock.{HlcGenerator, tick, u32_max}
use k_board.Prop.Key.{PropKey}
use k_board.Prop.Key.Order.{key_ord}
use k_board.Prop.Value.{PropValue, is_valid}
use k_board.Element
use k_board.Element.{Element, ElementId}
use k_board.Op
use k_board.Op.{StampedOp, upsert, delete_each}
use k_board.Board.{
  Board, Change, Reversal, stamp_all, writes, captured, bounded, undo, undo_from, record_change,
  replay_change, record_ops, read_default, without_oldest,
}
use k_board.Board.Replay.{reading, IsBehind, last_set, stamp_all_lem}
use k_board.Board.Exec.{Assigned}

pub bounded_cons :
    (c : Change) (cs : List Change) → (rest : List Change) × (bounded (c ∷ cs) ≡ c ∷ rest)
bounded_cons c [] = ([], refl)
bounded_cons c (d ∷ cs) = elim (Bool-cases (ltb 200 (length (c ∷ d ∷ cs)))) [
  | inl long ↦ (without_oldest (d ∷ cs), rw (long, bounded))
  | inr short ↦ (d ∷ cs, rw (short, bounded))
]

pub upsert-stamp_all :
    (id : ElementId) (props : Assigned) (clock : HlcGenerator) (now : ℕ)
    → upsert id props clock now ≡ stamp_all clock (writes id props) now
unfolding upsert stamp_all writes
upsert-stamp_all id [] clock now = refl
upsert-stamp_all id ((key, value) ∷ props) clock now =
    ap (λ r. (r.0, record { stamp = (tick clock now).1; op = Op.set id key value } ∷ r.1))
      (upsert-stamp_all id props (tick clock now).0 now)

pub delete_each-stamp_all :
    (es : List Element) (clock : HlcGenerator) (now : ℕ)
    → delete_each es clock now ≡ stamp_all clock (map Reversal.delete (map (λ e. e.id) es)) now
unfolding delete_each stamp_all
delete_each-stamp_all [] clock now = refl
delete_each-stamp_all (e ∷ es) clock now =
    ap (λ r. (r.0, record { stamp = (tick clock now).1; op = Op.delete e.id } ∷ r.1))
      (delete_each-stamp_all es (tick clock now).0 now)

pub element-delete_each :
    (es : List Element) (clock : HlcGenerator) (now : ℕ)
    → map (λ stamped. Op.element stamped.op) (delete_each es clock now).1 ≡ map (λ e. e.id) es
unfolding delete_each Op.element
element-delete_each [] clock now = refl
element-delete_each (e ∷ es) clock now =
    ap (λ ids. e.id ∷ ids) (element-delete_each es (tick clock now).0 now)

-- What is read after a recorded change, and after it is undone.
pub undo-record_change :
    (b : Board) (rs : List Reversal) (change : Change) (now later : ℕ)
    → IsBehind b.document b.clock.last
    → b.clock.last.counter + (length rs + length change.backward) ≤ u32_max
    → (j : ElementId) (k : PropKey)
    → let (clock, ops) = stamp_all b.clock rs now in
      reading (undo (record_change (record b { clock = clock }) ops change) later).0.document j k
      ≡ last_set change.backward j k (last_set rs j k (reading b.document j k))
unfolding undo record_change replay_change record_ops
undo-record_change b rs change now later behind room j k =
    let first = stamp_all_lem b.document b.clock rs now behind (omega arith) in
    let (clock, ops) = stamp_all b.clock rs now in
    let done = record_change (record b { clock = clock }) ops change in
    let second =
      stamp_all_lem done.document clock change.backward later first.0 (omega (arith, first.1)) in
    let (rest, e) = bounded_cons change b.undone in
    ap (λ changes. reading (undo_from done later changes).0.document j k) e
    ∙ second.2 j k
    ∙ ap (last_set change.backward j k) (first.2 j k)

-- A value that is valid and under a key that is not written, or is written back.
pub last_set-writes_apart :
    (id : ElementId) (props : Assigned) (j : ElementId) (k : PropKey) (a : Option PropValue)
    → (equals j id && any (equals k) (map (λ p. p.0) props)) ≡ false
    → last_set (writes id props) j k a ≡ a
unfolding writes
last_set-writes_apart id [] j k a h = refl
last_set-writes_apart id ((key, value) ∷ props) j k a h =
    ground (arith, last_set-writes_apart id props j k a)

module _ (current : Element) (id : ElementId) (k : PropKey) (v : PropValue)
    (reads : Element.get current k ≡ some v) (valid : is_valid v ≡ true) where
  pub captured_keeps :
      (keys : List PropKey) → last_set (captured current id keys) id k (some v) ≡ some v
  unfolding captured
  captured_keeps [] = refl
  captured_keeps (key ∷ keys) = ground (
    arith,
    captured_keeps keys,
    Option-cases (Element.get current key),
    Option-cases (read_default key),
    same_of_equals k key,
  )

  pub captured_restores :
      (keys : List PropKey) (a : Option PropValue)
      → any (equals k) keys ≡ true
      → last_set (captured current id keys) id k a ≡ some v
  unfolding captured
  captured_restores [] a h = cc
  captured_restores (key ∷ keys) a h = ground (
    arith,
    captured_restores keys a,
    captured_keeps keys,
    Option-cases (Element.get current key),
    same_of_equals k key,
    equals_self id,
  )

pub captured_apart :
    (current : Element) (id j : ElementId) (k : PropKey) (keys : List PropKey)
    (a : Option PropValue)
    → equals j id ≡ false
    → last_set (captured current id keys) j k a ≡ a
unfolding captured
captured_apart current id j k [] a h = refl
captured_apart current id j k (key ∷ keys) a h = ground (
  arith,
  captured_apart current id j k keys a,
  Option-cases (Element.get current key),
  Option-cases (read_default key),
)

pub length-captured :
    (current : Element) (id : ElementId) (keys : List PropKey)
    → length (captured current id keys) ≤ length keys
unfolding captured
length-captured current id [] = omega arith
length-captured current id (key ∷ keys) = ground (
  arith,
  length-captured current id keys,
  Option-cases (Element.get current key),
  Option-cases (read_default key),
)

pub length-writes : (id : ElementId) (props : Assigned) → length (writes id props) ≡ length props
unfolding writes
length-writes id [] = refl
length-writes id (p ∷ props) = ap suc (length-writes id props)

pub length-map : {A B : Type 0} → (f : A → B) (xs : List A) → length (map f xs) ≡ length xs
length-map f [] = refl
length-map f (x ∷ xs) = ap suc (length-map f xs)

pub deletes_read :
    (ids : List ElementId) (j : ElementId) (k : PropKey) (a : Option PropValue)
    → last_set (map Reversal.delete ids) j k a
      ≡ (if any (equals j) ids && equals k PropKey.deleted then some (PropValue.bool true) else a)
unfolding is_valid
deletes_read [] j k a = refl
deletes_read (id ∷ ids) j k a = ground (
  arith,
  deletes_read ids j k
      (if equals j id && equals k PropKey.deleted then some (PropValue.bool true) else a),
)

pub restores_read :
    (ids : List ElementId) (j : ElementId) (k : PropKey) (a : Option PropValue)
    → last_set (map (λ e. Reversal.set e PropKey.deleted (PropValue.bool false)) ids) j k a
      ≡ (if any (equals j) ids && equals k PropKey.deleted then some (PropValue.bool false) else a)
unfolding is_valid
restores_read [] j k a = refl
restores_read (id ∷ ids) j k a = ground (
  arith,
  restores_read ids j k
      (if equals j id && equals k PropKey.deleted then some (PropValue.bool false) else a),
)
