-- ===== src/Server/Room/Laws.antt =====
-- What a room holds after the batches it was sent: crates/kboard-server/src/room.rs, `accept` and
-- `stats`.
use k_board.Common.{
  ℕ, suc, ◌+◌, ◌<◌, ◌≤◌, ◌^◌, Bool, not, List, [], ◌∷◌, ◌++◌, length, ltb, leb, ◌≡◌, ◌↔◌, ◌⊎◌, refl,
  ap, sym, ◌∙◌, arith, Bool-cases, inl, inr, filter, Option-cases,
}
use k_board.Common.Order.{nat_ord}
use k_board.Common.Map
use k_board.Common.Map.{Map}
use k_board.Common.Map.Laws.{length-insert, lookup-insert}
use k_board.Common.Order.{equals_self}
use k_board.Clock.{Hlc}
use k_board.Prop.Key.{PropKey}
use k_board.Prop.Value.{PropValue}
use k_board.Element
use k_board.Element.{Element, ElementId}
use k_board.Document.{Document, total_count, live_count, live, entry, entry_set}
use k_board.Op.{StampedOp}
use k_board.Op.Replay.{
  target, field, payload, after, replay, after-written, replay-cons, replay-nil,
}
use k_board.Snapshot.{Snapshot, absorb}
use k_board.Snapshot.Laws.{absorb-append, absorb-nil, absorbed-lt}
use k_board.Server.Limits.{max_ops_per_frame, max_elements_per_room}
use k_board.Server.Room.{
  Room, Accepted, ok, err, Refused, room_full, batch_too_large, accept, stats, document,
}

total_count-entry_set :
    (d : Document) (id : ElementId) (key : PropKey) (v : PropValue) (t : Hlc)
    → total_count (entry_set d id key v t).0 ≤ suc (total_count d)
unfolding total_count entry_set entry
total_count-entry_set d id key v t = elim (Option-cases (Map.lookup id d.elements)) [
  | inl absent ↦ ground (
    arith,
    length-insert id (Element.new id) d.elements,
    length-insert id (Element.set (Element.new id) key v t).0
        (Map.insert id (Element.new id) d.elements),
    lookup-insert id id (Element.new id) d.elements,
    equals_self id,
  )
  | inr (e, present) ↦ ground (arith, length-insert id (Element.set e key v t).0 d.elements)
]

total_count-replay :
    (d : Document) (ops : List StampedOp) → total_count (replay d ops) ≤ total_count d + length ops
total_count-replay d [] = omega (arith, ap total_count (replay-nil d))
total_count-replay d (a ∷ ops) = omega (
  arith,
  ap total_count (replay-cons d a ops),
  total_count-replay (after d a) ops,
  ap total_count (after-written d a),
  total_count-entry_set d (target a.op) (field a.op) (payload a.op) a.stamp,
)

apply_all-total :
    (s : Snapshot) (ops : List StampedOp)
    → total_count (absorb s ops).0.document ≤ total_count s.document + length ops
unfolding absorb
apply_all-total s ops = total_count-replay s.document ops

-- A room stays below its ceiling and one batch more: if it is below before a batch it is after it. A
-- batch is refused as too large exactly above the limit on batches, as the room being full exactly
-- otherwise at the ceiling or above, and a refused batch leaves the room as it was.
pub accept_ceiling :
    (r : Room) (ops : List StampedOp) (now : ℕ)
    → total_count (document r) < max_elements_per_room + max_ops_per_frame
    → let (r', result) = accept r ops now in
      (total_count (document r') < max_elements_per_room + max_ops_per_frame)
      × ((result ≡ err batch_too_large) ↔ (max_ops_per_frame < length ops))
      × ((result ≡ err room_full)
          ↔ ((length ops ≤ max_ops_per_frame) × (max_elements_per_room ≤ total_count (document r))))
      × ((e : Refused) → result ≡ err e → r' ≡ r)
unfolding accept document
accept_ceiling r ops now h = ground (arith, apply_all-total r.state ops)

-- A batch before later operations, if it is accepted.
abbrev taken : List StampedOp → Accepted → List StampedOp → List StampedOp
taken ops (ok changed) later = ops ++ later
taken ops (err e) later = later

-- The batches that a room is sent, each with the time, and what of them it accepts.
unfoldable pub serve : Room → List (List StampedOp × ℕ) → Room
serve r [] = r
serve r ((ops, now) ∷ batches) = serve (accept r ops now).0 batches

unfoldable pub accepted_ops : Room → List (List StampedOp × ℕ) → List StampedOp
accepted_ops r [] = []
accepted_ops r ((ops, now) ∷ batches) =
    let (r', result) = accept r ops now in taken ops result (accepted_ops r' batches)

-- What one batch does to the snapshot and to what is accepted.
pub accept_step :
    (r : Room) (ops : List StampedOp) (now : ℕ)
    → ((changed : ℕ) × ((accept r ops now).1 ≡ ok changed)
        × ((accept r ops now).0.state ≡ (absorb r.state ops).0))
      ⊎ ((e : Refused) × ((accept r ops now).1 ≡ err e) × ((accept r ops now).0 ≡ r))
unfolding accept
accept_step r ops now = elim (Bool-cases (ltb max_ops_per_frame (length ops))) [
  | inl large ↦ rw large (inr (batch_too_large, refl, refl))
  | inr fits ↦ elim (Bool-cases (leb max_elements_per_room (total_count r.state.document))) [
    | inl full ↦ rw (fits, full) (inr (room_full, refl, refl))
    | inr free ↦ rw (fits, free) (inl (_, refl, refl))
  ]
]

serve_accepted :
    (r : Room) (ops : List StampedOp) (now : ℕ) (batches : List (List StampedOp × ℕ)) (changed : ℕ)
    → (accept r ops now).1 ≡ ok changed
    → accepted_ops r ((ops, now) ∷ batches) ≡ ops ++ accepted_ops (accept r ops now).0 batches
unfolding accepted_ops
serve_accepted r ops now batches changed h =
    ap (λ x. taken ops x (accepted_ops (accept r ops now).0 batches)) h

serve_refused :
    (r : Room) (ops : List StampedOp) (now : ℕ) (batches : List (List StampedOp × ℕ)) (e : Refused)
    → (accept r ops now).1 ≡ err e
    → accepted_ops r ((ops, now) ∷ batches) ≡ accepted_ops (accept r ops now).0 batches
unfolding accepted_ops
serve_refused r ops now batches e h =
    ap (λ x. taken ops x (accepted_ops (accept r ops now).0 batches)) h

-- Whatever batches a room is sent, its snapshot is the one that absorbs, at once and in order, the
-- operations of the batches that it accepted.
pub serve-state :
    (r : Room) (batches : List (List StampedOp × ℕ))
    → r.state.absorbed < 2 ^ 64
    → (serve r batches).state ≡ (absorb r.state (accepted_ops r batches)).0
unfolding serve accepted_ops
serve-state r [] h = sym (absorb-nil r.state h)
serve-state r ((ops, now) ∷ batches) h = elim (accept_step r ops now) [
  | inl (changed, result, state) ↦
      let next = (accept r ops now).0 in
      let room : next.state.absorbed < 2 ^ 64 = rw state (absorbed-lt r.state ops) in
      serve-state next batches room
      ∙ ap (λ s. (absorb s (accepted_ops next batches)).0) state
      ∙ absorb-append r.state ops (accepted_ops next batches)
      ∙ ap (λ o. (absorb r.state o).0) (sym (serve_accepted r ops now batches changed result))
  | inr (e, result, same) ↦
      let next = (accept r ops now).0 in
      let room : next.state.absorbed < 2 ^ 64 = rw same h in
      serve-state next batches room
      ∙ ap (λ x. (absorb x.state (accepted_ops next batches)).0) same
      ∙ ap (λ o. (absorb r.state o).0) (sym (serve_refused r ops now batches e result))
]

length-filter {ℓ} : {A : Type ℓ} (p : A → Bool) (xs : List A) → length (filter p xs) ≤ length xs
length-filter p [] = omega arith
length-filter p (x ∷ xs) = ground (arith, length-filter p xs)

length-values {ℓ κ} : {K : Type ℓ} {V : Type κ} (m : Map K V) → length (Map.values m) ≡ length m
unfolding Map.values
length-values [] = refl
length-values ((k, v) ∷ m) = ap suc (length-values m)

-- The statistics of a room count each of its elements once, as live or as a tombstone.
pub stats_lem :
    (r : Room) (receivers : ℕ)
    → let s = stats r receivers in s.elements + s.tombstones ≡ total_count (document r)
unfolding stats document live_count live total_count
stats_lem r receivers = omega (
  arith,
  length-filter (λ e. not (Element.is_deleted e)) (Map.values r.state.document.elements),
  length-values r.state.document.elements,
)
