-- ===== src/Tests/Engine.antt =====
-- The theorems on the engine at concrete inputs: crates/kboard-core/src.
use mathlib.Core.List.{Perm}
use mathlib.Core.List.Perm
use Prim.Native.Nat.Ordering.{lt}
use k_board.Common.{
  ◌+◌, ◌<◌, ◌≤◌, Bool, true, false, ◌||◌, [], ◌∷◌, any, length, some, ◌≡◌, ◌≢◌, ◌↔◌, ◌⊎◌, refl, sym,
  arith,
}
use k_board.Common.Order.{at_most, bytes_ord, nat_ord}
use k_board.Common.Map
use k_board.Prop.Key.Order.{key_ord}
use k_board.Clock.{cmp_hlc, tick, observe, u32_max}
use k_board.Clock.Order.{hlc_ord}
use k_board.Clock.Monotone.{tick_lem, observe_lem}
use k_board.Lww
use k_board.Prop.Key.{PropKey}
use k_board.Prop.Value
use k_board.Prop.Value.{PropValue, is_valid}
use k_board.Element
use k_board.Element.{Element}
use k_board.Element.Invariant.{register, new-IsOrdered}
use k_board.Element.Outcome.{set_outcome, concurrent_edits_survive, Beats}
use k_board.Document
use k_board.Document.{
  Document, Merged, ok, err, scope_mismatch, total_count, collect_tombstones, is_collectable, live,
  ordered,
}
use k_board.Document.Invariant.{IsWellFormed, new-IsWellFormed}
use k_board.Document.Merge.{merged, DocumentsAgree}
use k_board.Document.Join.{documents_merge_comm, documents_merge_assoc, documents_merge_changed}
use k_board.Document.Tombstones.{collect_tombstones_lem, retain}
use k_board.Document.Paint.{ordered_lem, IsBottomUp}
use k_board.Document.Shown.{IsErased, IsSpent}
use k_board.Common.{Bool, List, All, ◌++◌}
use k_board.Op
use k_board.Op.{StampedOp, apply_all, upsert, clear}
use k_board.Op.Replay.{merge_replays, replay-IsWellFormed}
use k_board.Op.Convergence.{replay_converges}
use k_board.Op.Build.{IsRising, rising-StampsAreUnique}
use k_board.Snapshot
use k_board.Snapshot.{absorb, covers, Snapshot}
use k_board.Snapshot.Laws.{absorb-append, covers-absorb}
use k_board.Tests.Data.{
  board, rectangle, early, late, three, four, moved, moved_again, deleted, empty_board, left, right,
  blank, clock,
}

-- What the tests compute.
program : Unit {0}
unfolding apply_all Op.apply Op.apply_op Document.new Document.entry_set Document.entry
    Document.delete Element.new Element.set is_valid Map.lookup Map.insert Lww.new Lww.set cmp_hlc
    hlc_ord nat_ord key_ord
program = tt

rising : IsRising (record { wall = 0; counter = 0; actor = 0 }) (moved ∷ moved_again ∷ [])
unfolding cmp_hlc
rising = (refl, (refl, tt))

replay_converges_example :
    (apply_all empty_board (moved ∷ moved_again ∷ [])).0
    ≡ (apply_all empty_board (moved_again ∷ moved ∷ [])).0
replay_converges_example =
    replay_converges empty_board (moved ∷ moved_again ∷ []) (moved_again ∷ moved ∷ [])
      (new-IsWellFormed board) (rising-StampsAreUnique _ _ rising)
      (λ a. Perm.mem_iff (Perm.swap moved_again moved []))

merge_replays_example :
    merged (Document.merge left right) ≡ some (apply_all empty_board (moved ∷ moved_again ∷ [])).0
merge_replays_example = merge_replays board (moved ∷ []) (moved_again ∷ [])

left_good : IsWellFormed left
left_good = replay-IsWellFormed empty_board (moved ∷ []) (new-IsWellFormed board)

right_good : IsWellFormed right
right_good = replay-IsWellFormed empty_board (moved_again ∷ []) (new-IsWellFormed board)

agree : DocumentsAgree left right
unfolding program
agree id key = ground arith

same_scope : left.scope ≡ right.scope
unfolding program
same_scope = refl

documents_merge_comm_example :
    (m : Document) × (merged (Document.merge left right) ≡ some m)
    × (merged (Document.merge right left) ≡ some m)
    × IsWellFormed m
documents_merge_comm_example = documents_merge_comm left right left_good right_good same_scope agree

documents_merge_assoc_example :
    (de : Document) × (ef : Document) × (m : Document) × (merged (Document.merge left right)
      ≡ some de)
    × (merged (Document.merge right left) ≡ some ef)
    × (merged (Document.merge de left) ≡ some m)
    × (merged (Document.merge left ef) ≡ some m)
documents_merge_assoc_example =
    documents_merge_assoc left right left left_good right_good left_good same_scope (sym same_scope)

documents_merge_changed_example :
    (m : Document) × (changed : Bool) × (Document.merge left right ≡ ok (m, changed))
    × ((changed ≡ false) ↔ (m ≡ left))
    × (Document.merge left left ≡ ok (left, false))
documents_merge_changed_example = documents_merge_changed left right left_good right_good same_scope

collect_tombstones_lem_example :
    let gone = (apply_all left (deleted ∷ [])).0 in
    let (d, count) = collect_tombstones gone late in
    ((keep : Element → Bool) × ((e : Element) → (keep e ≡ false) ↔ IsSpent late e)
      × (d.elements ≡ retain keep gone.elements))
    × (d.scope ≡ gone.scope)
    × (total_count d + count ≡ total_count gone)
collect_tombstones_lem_example =
    collect_tombstones_lem (apply_all left (deleted ∷ [])).0 late
      (replay-IsWellFormed left (deleted ∷ []) left_good)

ordered_lem_example :
    (erased : List Element) × Perm (ordered left ++ erased) (Map.values left.elements)
    × All (λ e. ¬ IsErased e) (ordered left)
    × All IsErased erased
    × IsBottomUp (ordered left)
ordered_lem_example = ordered_lem left

set_outcome_example :
    let (e, changed) = Element.set blank PropKey.x three early in
    ((changed ≡ true) ↔ ((is_valid three ≡ true) × Beats (register blank PropKey.x) early))
    × (changed ≡ true → register e PropKey.x ≡ some (Lww.new three early))
    × (changed ≡ false → e ≡ blank)
    × ((k : PropKey) → k ≢ PropKey.x → register e k ≡ register blank k)
set_outcome_example = set_outcome blank PropKey.x three early

keys_apart : PropKey.x ≢ PropKey.y
keys_apart e = cc

takes_effect : (Element.set blank PropKey.x three early).1 ≡ true
unfolding program
takes_effect = refl

takes_effect_too : (Element.set blank PropKey.y four late).1 ≡ true
unfolding program
takes_effect_too = refl

concurrent_edits_survive_example :
    let e =
      (Element.merge
        (Element.set blank PropKey.x three early).0
        (Element.set blank PropKey.y four late).0).0 in
    (Element.get e PropKey.x ≡ some three)
    × (Element.get e PropKey.y ≡ some four)
    × ((k : PropKey) → k ≢ PropKey.x → k ≢ PropKey.y → Element.get e k ≡ Element.get blank k)
concurrent_edits_survive_example =
    concurrent_edits_survive blank PropKey.x PropKey.y three four early late
      (new-IsOrdered rectangle) keys_apart takes_effect takes_effect_too

tick_lem_example :
    let (g, stamp) = tick clock 1000 in
    ((cmp_hlc clock.last stamp ≡ lt) ↔ ((clock.last.wall < 1000) ⊎ (clock.last.counter < u32_max)))
    × (g.last ≡ stamp)
    × (stamp.actor ≡ clock.last.actor)
    × (1000 ≤ stamp.wall)
    × (stamp.counter ≤ u32_max)
tick_lem_example = tick_lem clock 1000 (omega arith)

observe_lem_example :
    let (g, stamp) = observe clock late 999 in
    (cmp_hlc clock.last stamp ≡ lt)
    × (cmp_hlc late stamp ≡ lt)
    × (g.last ≡ stamp)
    × (stamp.actor ≡ clock.last.actor)
    × (999 ≤ stamp.wall)
    × (stamp.counter ≤ u32_max)
observe_lem_example = observe_lem clock late 999 (omega arith) (omega arith)

room_to_clear : clock.last.counter + length (live left) ≤ u32_max
unfolding program live Element.is_deleted Element.get Map.values Value.as_bool
room_to_clear = omega arith

absorb-append_example :
    (absorb (absorb (Snapshot.empty board) (moved ∷ [])).0 (deleted ∷ [])).0
    ≡ (absorb (Snapshot.empty board) (moved ∷ deleted ∷ [])).0
absorb-append_example = absorb-append (Snapshot.empty board) (moved ∷ []) (deleted ∷ [])

covers-absorb_example :
    covers (absorb (Snapshot.empty board) (deleted ∷ [])).0 moved
    ≡ (covers (Snapshot.empty board) moved || any (λ b. at_most moved.stamp b.stamp) (deleted ∷ []))
covers-absorb_example = covers-absorb (Snapshot.empty board) (deleted ∷ []) moved
