-- ===== src/Document/Join.antt =====
-- Documents form a join-semilattice under `merge`, within one scope:
-- crates/kboard-core/src/document.rs, `merge`.
use k_board.Common.{Bool, false, some, ◌≡◌, ◌↔◌, refl, ap, sym, ◌∙◌}
use k_board.Common.Order.{bytes_ord, nat_ord}
use k_board.Common.Map.Merge.{merge_with}
use k_board.Common.Map.Merge.Laws.{merge_with-changed}
use k_board.Element
use k_board.Element.{Element, ElementId}
use k_board.Element.Merge as Elements
use k_board.Document.{Document, ok, merge}
use k_board.Document.Invariant.{held, IsWellFormed}
use k_board.Document.Merge.{
  DocumentsAgree, join, merged, merge_within, join-IsWellFormed, join_comm, join_assoc, join_idem,
}

merged_within : (d f : Document) → d.scope ≡ f.scope → merged (merge d f) ≡ some (join d f)
merged_within d f same = ap merged (merge_within d f same)

-- Replicas that merge each other's documents end up with the same document: `merge` succeeds both
-- ways with one result, which is well-formed, for well-formed documents of one scope in which no
-- stamp under one property of one element carries two values.
pub documents_merge_comm :
    (d f : Document)
    → IsWellFormed d
    → IsWellFormed f
    → d.scope ≡ f.scope
    → DocumentsAgree d f
    → (m : Document) × (merged (merge d f) ≡ some m)
      × (merged (merge f d) ≡ some m)
      × IsWellFormed m
documents_merge_comm d f wd wf same agree = (
  join d f,
  merged_within d f same,
  merged_within f d (sym same) ∙ ap some (sym (join_comm d f wd wf same agree)),
  join-IsWellFormed d f wd wf,
)

-- Merging three well-formed documents of one scope gives one result however the merges are
-- grouped, and no merge among them is refused.
pub documents_merge_assoc :
    (d e f : Document)
    → IsWellFormed d
    → IsWellFormed e
    → IsWellFormed f
    → d.scope ≡ e.scope
    → e.scope ≡ f.scope
    → (de : Document) × (ef : Document) × (m : Document) × (merged (merge d e) ≡ some de)
      × (merged (merge e f) ≡ some ef)
      × (merged (merge de f) ≡ some m)
      × (merged (merge d ef) ≡ some m)
documents_merge_assoc d e f wd we wf left right = (
  join d e,
  join e f,
  join (join d e) f,
  merged_within d e left,
  merged_within e f right,
  merged_within (join d e) f (left ∙ right),
  merged_within d (join e f) left ∙ ap some (sym (join_assoc d e f wd we wf)),
)

pair_changed :
    (id : ElementId) (d f : Document) (w : IsWellFormed f) (a b : Element)
    → held d id ≡ some a
    → held f id ≡ some b
    → ((Element.merge a b).1 ≡ false) ↔ ((Element.merge a b).0 ≡ a)
pair_changed id d f w a b p q = Elements.merge-changed_iff a b (w.inner id b q)

-- Within one scope a merge reports no change exactly when it leaves the document as it was, and a
-- well-formed document merged into itself stays as it was.
pub documents_merge_changed :
    (d f : Document)
    → IsWellFormed d
    → IsWellFormed f
    → d.scope ≡ f.scope
    → (m : Document) × (changed : Bool) × (merge d f ≡ ok (m, changed))
      × ((changed ≡ false) ↔ (m ≡ d))
      × (merge d d ≡ ok (d, false))
documents_merge_changed d f wd wf same =
    let iff =
      merge_with-changed Element.merge d.elements f.elements wf.sorted
        (λ id a b p q. pair_changed id d f wf a b p q) in
    let own =
      merge_with-changed Element.merge d.elements d.elements wd.sorted
        (λ id a b p q. pair_changed id d d wd a b p q) in
    let idem = join_idem d wd in
    (
      join d f,
      (merge_with Element.merge d.elements f.elements).1,
      merge_within d f same,
      (
        λ h. let p = iff.0 h in λ i. record { scope = d.scope; elements = p i },
        λ h. iff.1 (ap (λ x. x.elements) h),
      ),
      merge_within d d refl ∙ λ i. ok (idem i, own.1 (ap (λ x. x.elements) idem) i),
    )
