-- ===== src/Risk/Cluster/Recovery.antt =====
-- How the linear count of losses moves when a cluster ends.
use aether_quantum_engine.Common.{◌+◌, ◌≤◌, ◌<◌, true, false, [], ◌≡◌, ◌⊎◌, arith}
use aether_quantum_engine.Common.Float.{Float, IsIeee, ◌≺◌, nought}
use aether_quantum_engine.Common.Float.Laws.{nought_refl, not-lt_of_le}
use aether_quantum_engine.Risk.{RiskManager}
use aether_quantum_engine.Risk.Pending.{pending_loss_total, recovery_financially_active}
use aether_quantum_engine.Risk.Cluster.{
  clear_dust_pending_loss, apply_dlambert_partial_win_retraction, after_dust,
  apply_cluster_profit_to_recovery_state,
}

module _ {F : Type 0} ⦃f : Float F⦄ (laws : IsIeee F) where
  no_pending : recovery_financially_active {F = F} [] ≡ false
  unfolding recovery_financially_active pending_loss_total
  no_pending = not-lt_of_le laws nought nought (nought_refl laws)

  -- A cluster ends in one of two ways: it counts one more loss, or it never resets the count while losses are pending.
  -- The count falls to 0 from above only when no pending loss is left, it never grows by more than 1, and a cluster
  -- that lost money leaves it above 0.
  pub cluster_profit-linear :
      (rm : RiskManager F) (profit : F)
      → let after = (apply_cluster_profit_to_recovery_state rm profit).0 in
        (after.consecutive_losses_linear ≡ 0
          → (rm.consecutive_losses_linear ≡ 0)
            ⊎ (recovery_financially_active after.pending_loss ≡ false))
        × (after.consecutive_losses_linear ≤ rm.consecutive_losses_linear + 1)
        × (profit ≺ nought → 0 < after.consecutive_losses_linear)
  unfolding apply_cluster_profit_to_recovery_state clear_dust_pending_loss after_dust
      apply_dlambert_partial_win_retraction recovery_financially_active
  cluster_profit-linear rm profit = ground (arith, no_pending)

  -- The reset is reported, and recorded for persistence, only when no pending loss is left.
  cluster_profit-reset :
      (rm : RiskManager F) (profit : F)
      → (apply_cluster_profit_to_recovery_state rm profit).1 ≡ true
      → let after = (apply_cluster_profit_to_recovery_state rm profit).0 in
        (after.linear_reset_occurred ≡ true)
        × (after.consecutive_losses_linear ≡ 0)
        × (recovery_financially_active after.pending_loss ≡ false)
        × (profit ≺ nought → ⊥)
  unfolding apply_cluster_profit_to_recovery_state clear_dust_pending_loss after_dust
      apply_dlambert_partial_win_retraction recovery_financially_active
  cluster_profit-reset rm profit h = ground (arith, no_pending)
