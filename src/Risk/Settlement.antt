-- ===== src/Risk/Settlement.antt =====
-- `apply_contract_settlement_result` of app/src/domain/risk/executed_stake_reconciliation.py, which is
-- `RiskManager.register_result`: what one settled contract does to the risk state.
pub mod Once
pub mod Ledger
pub mod Bankroll
use aether_quantum_engine.Common.{
  ℕ, ◌≤◌, String, Bool, true, false, not, ◌&&◌, ◌||◌, Option, none, some, List, [], ◌∷◌,
  if◌then◌else◌, ◌==◌, ltb, leb, nat_eq, string_eq, contains, keep_if, length,
}
use aether_quantum_engine.Common.Dict.{Dict, get, get_default, put, pop, has_key}
use aether_quantum_engine.Common.Float.{Float, nought, fmax, fabs, feq}
use aether_quantum_engine.Risk.{Config, RiskManager, record_trade_outcome, record_loss_context}
use aether_quantum_engine.Risk.Pending.{
  pending_loss_total, apply_win_to_pending_loss, fractional_payoff_residual_cents,
  apply_fractional_payoff_residual_to_pending, positive,
}
use aether_quantum_engine.Risk.Cluster.{finalize_risk_cluster}

module _ {F : Type 0} ⦃f : Float F⦄ where
  open f use {add, sub, le, lt}

  -- The first of the risk parameters `contract_payout`, `payout` and `payout_estimate` that is positive.
  unfoldable pub resolve_contract_payout : Config F → F
  resolve_contract_payout c = elim (positive (get "contract_payout" c.risk_params)) [
    | some p ↦ p
    | none ↦ elim (positive (get "payout" c.risk_params)) [
      | some p ↦ p
      | none ↦ elim (positive (get "payout_estimate" c.risk_params)) [
        | some p ↦ p
        | none ↦ c.payout_fallback
      ]
    ]
  ]

  -- The amount that a loss adds: the requested stake if positive, else the recorded one, else the loss.
  abbrev pub loss_amount : Option F → Option F → F → F
  loss_amount requested (some recorded) profit = elim (positive requested) [
    | some r ↦ r
    | none ↦ recorded
  ]
  loss_amount requested none profit = elim (positive requested) [ some r ↦ r | none ↦ fabs profit ]

  -- `float(recorded_stake) if recorded_stake else loss_amt`: zero counts as absent.
  abbrev pub last_stake : Option F → F → F
  last_stake none loss = loss
  last_stake (some recorded) loss = if feq recorded nought then loss else recorded

  unfoldable pub register_loss :
      RiskManager F → F → String → Option String → Option F → Option F → RiskManager F
  register_loss rm profit symbol direction requested recorded =
      let loss_amt = loss_amount requested recorded profit in
      record_loss_context
        (record rm {
          pending_loss =
              put symbol (add (get_default symbol nought rm.pending_loss) loss_amt) rm.pending_loss;
          last_loss_stake = last_stake recorded loss_amt;
        })
        symbol direction

  -- What of the profit goes to the pending losses: less what the stake was cut below the request.
  abbrev pub recovery_profit : Option F → Option F → F → F
  recovery_profit (some requested) (some recorded) profit =
      fmax nought (sub profit (fmax nought (sub requested recorded)))
  recovery_profit _ _ profit = profit

  -- The residue of a fractional payoff, where a stake was recorded.
  abbrev pub with_residual : Config F → Option F → F → String → Dict String F → Dict String F
  with_residual c none profit symbol pending = pending
  with_residual c (some recorded) profit symbol pending =
      if lt nought recorded
      then apply_fractional_payoff_residual_to_pending pending symbol
          (fractional_payoff_residual_cents profit recorded (resolve_contract_payout c))
      else pending

  unfoldable pub register_win : RiskManager F → F → String → Option F → Option F → RiskManager F
  register_win rm profit symbol requested recorded =
      let paid =
        apply_win_to_pending_loss rm.pending_loss (recovery_profit requested recorded profit) in
      let pending = with_residual rm.config recorded profit symbol paid in
      record rm {
        pending_loss = pending;
        last_loss_stake =
            if le (pending_loss_total pending) nought then nought else rm.last_loss_stake;
      }

  -- The contract's stakes are taken out, and its profit is booked on the cluster and the session.
  unfoldable pub book_profit : RiskManager F → F → ℕ → String → ℕ → RiskManager F
  book_profit rm profit cid symbol current_tick =
      let total = add rm.total_session_profit profit in
      record_trade_outcome
        (record rm {
          contract_stakes = pop cid rm.contract_stakes;
          contract_requested_stakes = pop cid rm.contract_requested_stakes;
          cluster_results = put cid profit rm.cluster_results;
          total_session_profit = total;
          peak_session_profit = fmax rm.peak_session_profit total;
          last_result_tick = current_tick;
        })
        symbol (le nought profit)

  -- The contract is dropped from the active ones, and the cluster ends when it has its results or nothing is open.
  unfoldable pub close_contract : RiskManager F → ℕ → RiskManager F
  close_contract rm cid =
      let active = keep_if (λ x. not (x == cid)) rm.active_contract_ids in
      let closed = record rm { active_contract_ids = active } in
      let expected = rm.expected_cluster_settlements in
      let cluster_done = ltb 0 expected && leb expected (length rm.cluster_results) in
      let idle_done = leb (length active) 0 && not (leb (length rm.cluster_results) 0) in
      if cluster_done || idle_done then finalize_risk_cluster closed else closed

  abbrev pub is_tracked : RiskManager F → ℕ → Bool
  is_tracked rm cid = contains cid rm.active_contract_ids || has_key cid rm.contract_to_symbol

  unfoldable pub apply_settlement :
      RiskManager F → F → ℕ → String → ℕ → Option String → RiskManager F
  apply_settlement rm profit cid symbol current_tick direction =
      let recorded = get cid rm.contract_stakes in
      let requested = get cid rm.contract_requested_stakes in
      let booked = book_profit rm profit cid symbol current_tick in
      let registered =
        if lt profit nought
        then register_loss booked profit symbol direction requested recorded
        else register_win booked profit symbol requested recorded in
      close_contract registered cid

  pub apply_contract_settlement_result :
      RiskManager F → F → ℕ → String → ℕ → Option String → RiskManager F
  apply_contract_settlement_result rm profit cid symbol current_tick direction =
      if has_key cid rm.cluster_results
      then rm
      else if is_tracked rm cid
      then apply_settlement rm profit cid symbol current_tick direction
      else rm
