-- ===== src/Risk/Cluster.antt =====
-- The end of a cluster of contracts: `finalize_risk_cluster` (app/src/domain/risk/risk_cluster.py) and the recovery
-- state that it updates (app/src/domain/risk/risk_recovery_state.py).
pub mod Recovery
use aether_quantum_engine.Common.{
  ℕ, ◌+◌, ◌-◌, max, Bool, true, false, ◌||◌, List, [], map, if◌then◌else◌, ltb, leb,
}
use aether_quantum_engine.Common.Float.{Float, nought, fsum}
use aether_quantum_engine.Risk.{RiskManager}
use aether_quantum_engine.Risk.Pending.{pending_loss_total}

module _ {F : Type 0} ⦃f : Float F⦄ where
  open f use {le, lt}

  -- The new state, and whether dust was cleared.
  unfoldable pub clear_dust_pending_loss : RiskManager F → RiskManager F × Bool
  clear_dust_pending_loss rm =
      let total = pending_loss_total rm.pending_loss in
      if le total nought || lt rm.config.dust_pending_clear_max total then (rm, false) else (
        record rm { pending_loss = []; consecutive_losses_linear = 0; last_loss_stake = nought },
        true,
      )

  unfoldable pub apply_dlambert_partial_win_retraction : RiskManager F → RiskManager F
  apply_dlambert_partial_win_retraction rm =
      let linear = rm.consecutive_losses_linear in
      if leb linear 0 then rm else record rm { consecutive_losses_linear = max 1 (linear - 1) }

  -- The part of `apply_cluster_profit_to_recovery_state` behind the dust.
  unfoldable pub after_dust : ℕ → RiskManager F → Bool → F → RiskManager F × Bool
  after_dust linear_before rm dust_cleared cluster_profit =
      let linear = rm.consecutive_losses_linear in
      let linear_reset = ltb 0 linear_before || ltb 0 linear in
      if lt cluster_profit nought
      then (record rm { consecutive_losses_linear = linear + 1 }, false)
      else if dust_cleared
      then (record rm { linear_reset_occurred = true }, true)
      else if lt nought (pending_loss_total rm.pending_loss)
      then (apply_dlambert_partial_win_retraction rm, false)
      else (
        record rm {
          consecutive_losses_linear = 0;
          last_loss_stake = nought;
          linear_reset_occurred = linear_reset || rm.linear_reset_occurred;
        },
        linear_reset,
      )

  -- The new state, and whether the linear count was reset.
  unfoldable pub apply_cluster_profit_to_recovery_state : RiskManager F → F → RiskManager F × Bool
  apply_cluster_profit_to_recovery_state rm cluster_profit =
      let (cleared, dust_cleared) = clear_dust_pending_loss rm in
      after_dust rm.consecutive_losses_linear cleared dust_cleared cluster_profit

  unfoldable pub finalize_risk_cluster : RiskManager F → RiskManager F
  finalize_risk_cluster rm =
      let cluster_profit = fsum (map (λ e. e.1) rm.cluster_results) in
      let updated = (apply_cluster_profit_to_recovery_state rm cluster_profit).0 in
      record updated {
        active_contract_ids = [];
        contract_to_symbol = [];
        cluster_results = [];
        expected_cluster_settlements = 0;
      }
