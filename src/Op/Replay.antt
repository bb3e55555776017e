-- ===== src/Op/Replay.antt =====
-- An operation is one write, and a log a sequence of writes: crates/kboard-core/src/op.rs.
use k_board.Common.{true, List, [], ◌∷◌, ◌++◌, ◌≡◌, refl, ap, sym, ◌∙◌, subst, some}
use k_board.Clock.{Hlc}
use k_board.Prop.Key.{PropKey}
use k_board.Prop.Value.{PropValue}
use k_board.Element.{ElementId}
use k_board.Document
use k_board.Document.{Document, ScopeId, entry_set}
use k_board.Document.Invariant.{
  IsWellFormed, entry_set-IsWellFormed, entry_set-scope, new-IsWellFormed,
}
use k_board.Document.Replay.{join-entry_set, join-new}
use k_board.Document.Merge.{join, merged, merge_within}
use k_board.Op.{Op, StampedOp, apply, apply_op, apply_all}

-- Each operation is one write.
abbrev pub target : Op → ElementId
target (Op.set e key value) = e
target (Op.delete e) = e

abbrev pub field : Op → PropKey
field (Op.set e key value) = key
field (Op.delete e) = PropKey.deleted

abbrev pub payload : Op → PropValue
payload (Op.set e key value) = value
payload (Op.delete e) = PropValue.bool true

apply_op-entry_set :
    (d : Document) (o : Op) (t : Hlc)
    → apply_op d o t ≡ entry_set d (target o) (field o) (payload o) t
unfolding apply_op Document.delete
apply_op-entry_set d (Op.set e key value) t = refl
apply_op-entry_set d (Op.delete e) t = refl

-- An operation writes one property of one element.
pub apply-entry_set :
    (d : Document) (a : StampedOp)
    → apply d a ≡ entry_set d (target a.op) (field a.op) (payload a.op) a.stamp
unfolding apply
apply-entry_set d a = apply_op-entry_set d a.op a.stamp

-- The document after one operation, and after a log.
abbrev pub after : Document → StampedOp → Document
after d a = (apply d a).0

abbrev pub replay : Document → List StampedOp → Document
replay d ops = (apply_all d ops).0

pub replay-cons :
    (d : Document) (a : StampedOp) (ops : List StampedOp)
    → replay d (a ∷ ops) ≡ replay (after d a) ops
unfolding apply_all
replay-cons d a ops = refl

pub replay-nil : (d : Document) → replay d [] ≡ d
unfolding apply_all
replay-nil d = refl

abbrev pub written : Document → StampedOp → Document
written d a = (entry_set d (target a.op) (field a.op) (payload a.op) a.stamp).0

pub after-written : (d : Document) (a : StampedOp) → after d a ≡ written d a
after-written d a = ap (λ r. r.0) (apply-entry_set d a)

pub after-after : (d : Document) (a b : StampedOp) → after (after d a) b ≡ written (written d a) b
after-after d a b = after-written (after d a) b ∙ ap (λ x. written x b) (after-written d a)

pub after-IsWellFormed : (d : Document) (a : StampedOp) → IsWellFormed d → IsWellFormed (after d a)
after-IsWellFormed d a w =
    subst IsWellFormed (sym (after-written d a))
      (entry_set-IsWellFormed d (target a.op) (field a.op) (payload a.op) a.stamp w)

-- Every document that a log leaves is well-formed.
pub replay-IsWellFormed :
    (d : Document) (ops : List StampedOp) → IsWellFormed d → IsWellFormed (replay d ops)
replay-IsWellFormed d [] w = rw replay-nil w
replay-IsWellFormed d (a ∷ ops) w =
    rw replay-cons (replay-IsWellFormed (after d a) ops (after-IsWellFormed d a w))

after-scope : (d : Document) (a : StampedOp) → (after d a).scope ≡ d.scope
after-scope d a =
    ap (λ x. x.scope) (after-written d a)
    ∙ entry_set-scope d (target a.op) (field a.op) (payload a.op) a.stamp

pub replay-scope : (d : Document) (ops : List StampedOp) → (replay d ops).scope ≡ d.scope
replay-scope d [] = ap (λ x. x.scope) (replay-nil d)
replay-scope d (a ∷ ops) =
    ap (λ x. x.scope) (replay-cons d a ops) ∙ replay-scope (after d a) ops ∙ after-scope d a

pub replay-append :
    (d : Document) (xs ys : List StampedOp) → replay d (xs ++ ys) ≡ replay (replay d xs) ys
replay-append d [] ys = ap (λ x. replay x ys) (sym (replay-nil d))
replay-append d (a ∷ xs) ys =
    replay-cons d a (xs ++ ys)
    ∙ replay-append (after d a) xs ys
    ∙ ap (λ x. replay x ys) (sym (replay-cons d a xs))

join-after :
    (d f : Document) (a : StampedOp)
    → IsWellFormed d
    → IsWellFormed f
    → join d (after f a) ≡ after (join d f) a
join-after d f a wd wf =
    ap (join d) (after-written f a)
    ∙ join-entry_set d f (target a.op) (field a.op) (payload a.op) a.stamp wd wf
    ∙ sym (after-written (join d f) a)

join-replay :
    (d f : Document) (ops : List StampedOp)
    → IsWellFormed d
    → IsWellFormed f
    → join d (replay f ops) ≡ replay (join d f) ops
join-replay d f [] wd wf = ap (join d) (replay-nil f) ∙ sym (replay-nil (join d f))
join-replay d f (a ∷ ops) wd wf =
    ap (join d) (replay-cons f a ops)
    ∙ join-replay d (after f a) ops wd (after-IsWellFormed f a wf)
    ∙ ap (λ x. replay x ops) (join-after d f a wd wf)
    ∙ sym (replay-cons (join d f) a ops)

-- Merging the documents that two logs leave is replaying one log after the other.
pub merge_replays :
    (scope : ScopeId) (xs ys : List StampedOp)
    → merged
        (Document.merge (apply_all (Document.new scope) xs).0 (apply_all (Document.new scope) ys).0)
      ≡ some (apply_all (Document.new scope) (xs ++ ys)).0
merge_replays scope xs ys =
    let empty = Document.new scope in
    let d = replay empty xs in
    let f = replay empty ys in
    let w = new-IsWellFormed scope in
    ap merged (merge_within d f (replay-scope empty xs ∙ sym (replay-scope empty ys)))
    ∙ ap some (
        join-replay d empty ys (replay-IsWellFormed empty xs w) w
        ∙ ap (λ x. replay x ys) (join-new d scope)
        ∙ sym (replay-append empty xs ys))
