-- ===== src/Risk/Settlement/Bankroll.antt =====
-- A settlement leaves the session's first bankroll alone.
use aether_quantum_engine.Common.{ℕ, String, Bool, Bool-cases, Option, ◌≡◌, inl, inr, arith, nat_eq}
use aether_quantum_engine.Common.Dict.{has_key}
use aether_quantum_engine.Common.Float.{Float, nought}
use aether_quantum_engine.Risk.{RiskManager, record_trade_outcome, record_loss_context}
use aether_quantum_engine.Risk.Cluster.{
  clear_dust_pending_loss, apply_dlambert_partial_win_retraction, after_dust,
  apply_cluster_profit_to_recovery_state, finalize_risk_cluster,
}
use aether_quantum_engine.Risk.Settlement.{
  register_loss, register_win, book_profit, close_contract, is_tracked, apply_settlement,
  apply_contract_settlement_result,
}

module _ {F : Type 0} ⦃f : Float F⦄ where
  clear_dust-bankroll :
      (rm : RiskManager F) → (clear_dust_pending_loss rm).0.initial_bankroll ≡ rm.initial_bankroll
  unfolding clear_dust_pending_loss
  clear_dust-bankroll rm = ground arith

  after_dust-bankroll :
      (linear : ℕ) (rm : RiskManager F) (cleared : Bool) (profit : F)
      → (after_dust linear rm cleared profit).0.initial_bankroll ≡ rm.initial_bankroll
  unfolding after_dust apply_dlambert_partial_win_retraction
  after_dust-bankroll linear rm cleared profit = ground arith

  finalize-bankroll :
      (rm : RiskManager F) → (finalize_risk_cluster rm).initial_bankroll ≡ rm.initial_bankroll
  unfolding finalize_risk_cluster apply_cluster_profit_to_recovery_state
  finalize-bankroll rm = rw (after_dust-bankroll, clear_dust-bankroll)

  close_contract-bankroll :
      (rm : RiskManager F) (cid : ℕ)
      → (close_contract rm cid).initial_bankroll ≡ rm.initial_bankroll
  unfolding close_contract
  close_contract-bankroll rm cid = grind (arith, finalize-bankroll)

  apply_settlement-bankroll :
      (rm : RiskManager F) (profit : F) (cid : ℕ) (symbol : String) (tick : ℕ)
      (direction : Option String)
      → (apply_settlement rm profit cid symbol tick direction).initial_bankroll
        ≡ rm.initial_bankroll
  unfolding apply_settlement register_loss register_win book_profit record_trade_outcome
      record_loss_context
  apply_settlement-bankroll rm profit cid symbol tick direction =
      elim (Bool-cases (f.lt profit nought)) [
        | inl loss ↦ rw loss (close_contract-bankroll _ cid)
        | inr win ↦ rw win (close_contract-bankroll _ cid)
      ]

  pub apply_contract-bankroll :
      (rm : RiskManager F) (profit : F) (cid : ℕ) (symbol : String) (tick : ℕ)
      (direction : Option String)
      → (apply_contract_settlement_result rm profit cid symbol tick direction).initial_bankroll
        ≡ rm.initial_bankroll
  unfolding apply_contract_settlement_result
  apply_contract-bankroll rm profit cid symbol tick direction =
      elim (Bool-cases (has_key cid rm.cluster_results)) [
        | inl seen ↦ rw seen
        | inr new ↦ elim (Bool-cases (is_tracked rm cid)) [
          | inl tracked ↦
              rw (new, tracked) (apply_settlement-bankroll rm profit cid symbol tick direction)
          | inr gone ↦ rw (new, gone)
        ]
      ]
