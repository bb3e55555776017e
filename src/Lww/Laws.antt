-- ===== src/Lww/Laws.antt =====
-- Merging registers is a join: crates/kboard-core/src/lww.rs.
use k_board.Common.{true, false, ◌≡◌, ◌↔◌, refl, arith, ap, sym, ◌∙◌}
use k_board.Common.Order.{before}
use k_board.Clock.{Hlc}
use k_board.Clock.Order.{hlc_ord, cmp_hlc-IsTotal}
use k_board.Lww.{Lww, new, set, merge}
open cmp_hlc-IsTotal use {eq_self, same, flipped, chain}

module _ {ℓ} {T : Type ℓ} where
  -- Two registers that bear one stamp hold one value: a stamp is given to one write only.
  abbrev pub Agree : Lww T → Lww T → Type ℓ
  Agree r s = r.stamp ≡ s.stamp → r.value ≡ s.value

  -- The register that a merge leaves.
  abbrev pub join : Lww T → Lww T → Lww T
  join r s = (merge r s).0

  -- A local write and a merge of a register with the same value and stamp do the same.
  pub set-eq-merge : (r : Lww T) (v : T) (t : Hlc) → set r v t ≡ merge r (new v t)
  unfolding set merge new
  set-eq-merge r v t = refl

  pub join_comm : (r s : Lww T) → Agree r s → join r s ≡ join s r
  unfolding merge
  join_comm r s a = ground (arith, same r.stamp s.stamp, flipped r.stamp s.stamp)

  pub join_idem : (r : Lww T) → join r r ≡ r
  unfolding merge
  join_idem r = ground arith

  pub join_assoc : (r s t : Lww T) → join (join r s) t ≡ join r (join s t)
  unfolding merge
  join_assoc r s t = ground (
    arith,
    same r.stamp s.stamp,
    same s.stamp t.stamp,
    same r.stamp t.stamp,
    flipped r.stamp s.stamp,
    flipped s.stamp t.stamp,
    flipped r.stamp t.stamp,
    chain r.stamp s.stamp t.stamp,
    chain t.stamp s.stamp r.stamp,
    chain s.stamp r.stamp t.stamp,
    chain r.stamp t.stamp s.stamp,
  )

  -- Two merges into one register commute.
  pub join_swap : (r s t : Lww T) → Agree s t → join (join r s) t ≡ join (join r t) s
  join_swap r s t a = join_assoc r s t ∙ ap (join r) (join_comm s t a) ∙ sym (join_assoc r t s)

  -- A merge reports a change exactly when it changes the register.
  pub merge-changed : (r s : Lww T) → ((merge r s).1 ≡ false) ↔ (join r s ≡ r)
  unfolding merge
  merge-changed r s = (ground arith, ground (arith, eq_self s.stamp))

  -- Merging is a join: with registers that agree it is commutative, and it is associative and
  -- idempotent with any. A merge reports a change exactly when it changes the register.
  pub merge_laws :
      (r s t : Lww T)
      → Agree r s
      → (join r s ≡ join s r)
        × (join (join r s) t ≡ join r (join s t))
        × (join r r ≡ r)
        × (((merge r s).1 ≡ false) ↔ (join r s ≡ r))
  merge_laws r s t a = (join_comm r s a, join_assoc r s t, join_idem r, merge-changed r s)

  -- The merged register is one of the two, and bears the higher stamp.
  pub join-stamp :
      (r s : Lww T)
      → (join r s).stamp ≡ elim (before r.stamp s.stamp) [ true ↦ s.stamp | false ↦ r.stamp ]
  unfolding merge
  join-stamp r s = ground arith
