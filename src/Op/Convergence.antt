-- ===== src/Op/Convergence.antt =====
-- Logs of operations converge: crates/kboard-core/src/op.rs and
-- crates/kboard-core/tests/convergence.rs.
use mathlib.Core.List.{Mem, Memᴰ, mem-cons_self, mem-cons_of_mem}
use mathlib.Core.Logic.{∥∥₁_elim}
use k_board.Common.{List, [], ◌∷◌, ◌≡◌, ◌↔◌, ap, sym, ◌∙◌, subst}
use k_board.Document.{Document}
use k_board.Document.Invariant.{IsWellFormed}
use k_board.Document.Write.{entry_set_swap}
use k_board.Document.Replay.{entry_set_again}
use k_board.Op.{StampedOp, apply_all}
use k_board.Op.Replay.{
  target, field, payload, after, replay, after-written, after-after, after-IsWellFormed,
  replay-cons, replay-nil,
}

-- No stamp is given to two operations.
abbrev pub StampsAreUnique : List StampedOp → Type 0
StampsAreUnique ops = (a b : StampedOp) → Mem a ops → Mem b ops → a.stamp ≡ b.stamp → a.op ≡ b.op

after_swap :
    (d : Document) (a b : StampedOp)
    → IsWellFormed d
    → (a.stamp ≡ b.stamp → a.op ≡ b.op)
    → after (after d a) b ≡ after (after d b) a
after_swap d a b w one =
    after-after d a b
    ∙ entry_set_swap d (target a.op) (target b.op) (field a.op) (field b.op) (payload a.op)
        (payload b.op) a.stamp b.stamp w (λ _ _ s. ap payload (one s))
    ∙ sym (after-after d b a)

after_again : (d : Document) (a : StampedOp) → IsWellFormed d → after (after d a) a ≡ after d a
after_again d a w =
    after-after d a a
    ∙ entry_set_again d (target a.op) (field a.op) (payload a.op) a.stamp w
    ∙ sym (after-written d a)

-- An operation that stands in a log may be applied before the log, too.
repeated :
    (d : Document) (a : StampedOp) (ops : List StampedOp)
    → IsWellFormed d
    → ((b : StampedOp) → Mem b ops → a.stamp ≡ b.stamp → a.op ≡ b.op)
    → Memᴰ a ops
    → replay (after d a) ops ≡ replay d ops
repeated d a [] w one m = elim m [ ]
repeated d a (b ∷ ops) w one (Memᴰ.head e) =
    subst (λ c. replay (after d a) (c ∷ ops) ≡ replay d (c ∷ ops)) e
      (replay-cons (after d a) a ops
        ∙ ap (λ x. replay x ops) (after_again d a w)
        ∙ sym (replay-cons d a ops))
repeated d a (b ∷ ops) w one (Memᴰ.tail m) =
    replay-cons (after d a) b ops
    ∙ ap (λ x. replay x ops) (after_swap d a b w (one b mem-cons_self))
    ∙ repeated (after d b) a ops (after-IsWellFormed d b w) (λ c mc. one c (mem-cons_of_mem b mc)) m
    ∙ sym (replay-cons d b ops)

Document-set : IsSet Document
Document-set = hlevel

repeated_mem :
    (d : Document) (a : StampedOp) (ops : List StampedOp)
    → IsWellFormed d
    → ((b : StampedOp) → Mem b ops → a.stamp ≡ b.stamp → a.op ≡ b.op)
    → Mem a ops
    → replay (after d a) ops ≡ replay d ops
repeated_mem d a ops w one m = ∥∥₁_elim m (Document-set _ _) (λ p. repeated d a ops w one p)

-- A log whose operations stand in a second one may be applied before the second one, too.
repeated_log :
    (d : Document) (xs ops : List StampedOp)
    → IsWellFormed d
    → ((a b : StampedOp) → Mem a xs → Mem b ops → a.stamp ≡ b.stamp → a.op ≡ b.op)
    → ((a : StampedOp) → Mem a xs → Mem a ops)
    → replay (replay d xs) ops ≡ replay d ops
repeated_log d [] ops w one sub = ap (λ x. replay x ops) (replay-nil d)
repeated_log d (a ∷ xs) ops w one sub =
    ap (λ x. replay x ops) (replay-cons d a xs)
    ∙ repeated_log (after d a) xs ops (after-IsWellFormed d a w)
        (λ b c mb. one b c (mem-cons_of_mem a mb)) (λ b mb. sub b (mem-cons_of_mem a mb))
    ∙ repeated_mem d a ops w (λ b. one a b mem-cons_self) (sub a mem-cons_self)

-- An operation may be applied before a log or after it.
late :
    (d : Document) (a : StampedOp) (ops : List StampedOp)
    → IsWellFormed d
    → ((b : StampedOp) → Mem b ops → a.stamp ≡ b.stamp → a.op ≡ b.op)
    → replay (after d a) ops ≡ after (replay d ops) a
late d a [] w one = replay-nil (after d a) ∙ ap (λ x. after x a) (sym (replay-nil d))
late d a (b ∷ ops) w one =
    replay-cons (after d a) b ops
    ∙ ap (λ x. replay x ops) (after_swap d a b w (one b mem-cons_self))
    ∙ late (after d b) a ops (after-IsWellFormed d b w) (λ c mc. one c (mem-cons_of_mem b mc))
    ∙ ap (λ x. after x a) (sym (replay-cons d b ops))

logs_swap :
    (d : Document) (xs ops : List StampedOp)
    → IsWellFormed d
    → ((a b : StampedOp) → Mem a xs → Mem b ops → a.stamp ≡ b.stamp → a.op ≡ b.op)
    → replay (replay d xs) ops ≡ replay (replay d ops) xs
logs_swap d [] ops w one = ap (λ x. replay x ops) (replay-nil d) ∙ sym (replay-nil (replay d ops))
logs_swap d (a ∷ xs) ops w one =
    ap (λ x. replay x ops) (replay-cons d a xs)
    ∙ logs_swap (after d a) xs ops (after-IsWellFormed d a w)
        (λ b c mb. one b c (mem-cons_of_mem a mb))
    ∙ ap (λ x. replay x xs) (late d a ops w (λ b. one a b mem-cons_self))
    ∙ sym (replay-cons (replay d ops) a xs)

-- Two logs with the same operations, in any order and with any of them repeated, leave the same
-- document, if no stamp is given to two operations.
pub replay_converges :
    (d : Document) (xs ys : List StampedOp)
    → IsWellFormed d
    → StampsAreUnique xs
    → ((a : StampedOp) → Mem a xs ↔ Mem a ys)
    → (apply_all d xs).0 ≡ (apply_all d ys).0
replay_converges d xs ys w one same =
    sym (repeated_log d ys xs w (λ a b ma. one a b ((same a).1 ma)) (λ a. (same a).1))
    ∙ logs_swap d ys xs w (λ a b ma. one a b ((same a).1 ma))
    ∙ repeated_log d xs ys w (λ a b ma mb. one a b ma ((same b).1 mb)) (λ a. (same a).0)
