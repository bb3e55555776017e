-- ===== src/Lww.antt =====
-- The last-writer-wins register: crates/kboard-core/src/lww.rs.
pub mod Laws
use k_board.Common.{Bool, true, false}
use k_board.Common.Order.{before}
use k_board.Clock.{Hlc}
use k_board.Clock.Order.{hlc_ord}

pub record Lww {ℓ} (T : Type ℓ) : Type ℓ where
  pub value : T
  pub stamp : Hlc

module _ {ℓ} {T : Type ℓ} where
  unfoldable pub new : T → Hlc → Lww T
  new value stamp = record { value = value; stamp = stamp }

  -- `set` writes if the stamp beats the register's, and says whether it did.
  unfoldable pub set : Lww T → T → Hlc → Lww T × Bool
  unfolding hlc_ord
  set r value stamp = elim (before r.stamp stamp) [
    | true ↦ (record { value = value; stamp = stamp }, true)
    | false ↦ (r, false)
  ]

  -- `merge` takes the other register if its stamp beats this one's, and says whether it did.
  unfoldable pub merge : Lww T → Lww T → Lww T × Bool
  unfolding hlc_ord
  merge r other = elim (before r.stamp other.stamp) [
    | true ↦ (record { value = other.value; stamp = other.stamp }, true)
    | false ↦ (r, false)
  ]
