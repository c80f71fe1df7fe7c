-- ===== src/Risk/Pending.antt =====
-- The pending losses of a session: app/src/domain/risk/risk_recovery_state.py and
-- app/src/domain/risk/executed_stake_reconciliation.py.
pub mod Laws
use aether_quantum_engine.Common.{
  ℕ, ◌-◌, max, String, Bool, true, false, ◌&&◌, ◌||◌, Option, none, some, List, [], ◌∷◌, map,
  if◌then◌else◌, string_eq, leb,
}
use aether_quantum_engine.Common.Dict.{Dict, get_default, put, pop}
use aether_quantum_engine.Common.Float.{Float, nought, fmax, fabs, feq, fsum}

module _ {F : Type 0} ⦃f : Float F⦄ where
  open f use {lit, add, sub, mul, le, lt, round_to}

  unfoldable pub pending_loss_total : Dict String F → F
  pending_loss_total pending_loss = fsum (map (λ e. e.1) pending_loss)

  unfoldable pub recovery_financially_active : Dict String F → Bool
  recovery_financially_active pending_loss = lt nought (pending_loss_total pending_loss)

  -- The loop stops where nothing of the profit remains; each round writes the entry of its own key.
  unfoldable pub apply_win_to_pending_loss : Dict String F → F → Dict String F
  apply_win_to_pending_loss [] remaining = []
  apply_win_to_pending_loss ((sym, current_loss) ∷ rest) remaining =
      let paid = le current_loss remaining in
      let left = if paid then nought else sub current_loss remaining in
      let done =
        apply_win_to_pending_loss rest (if paid then sub remaining current_loss else nought) in
      if le remaining nought then (sym, current_loss) ∷ rest else (sym, left) ∷ done

  unfoldable pub domain_expected_win_profit : F → F → F
  domain_expected_win_profit executed_stake payout_rate =
      mul (fmax nought executed_stake) (fmax nought payout_rate)

  unfoldable pub fractional_payoff_residual_cents : F → F → F → F
  unfolding domain_expected_win_profit
  fractional_payoff_residual_cents api_profit executed_stake payout_rate =
      let residual =
        round_to (sub api_profit (domain_expected_win_profit executed_stake payout_rate)) 4 in
      if le api_profit nought || le executed_stake nought
      then nought
      else if lt (lit 10 2) (fabs residual)
      then nought
      else residual

  unfoldable pub apply_fractional_payoff_residual_to_pending :
      Dict String F → String → F → Dict String F
  apply_fractional_payoff_residual_to_pending pending_loss symbol delta =
      let current = get_default symbol nought pending_loss in
      let updated = fmax nought (sub current delta) in
      if feq delta nought
      then pending_loss
      else if lt delta nought && le (fabs delta) (lit 10 2) && le current nought
      then pop symbol pending_loss
      else if le updated nought
      then pop symbol pending_loss
      else put symbol updated pending_loss

  -- `raw is not None and float(raw) > 0.0`
  abbrev pub positive : Option F → Option F
  positive none = none
  positive (some v) = if lt nought v then some v else none

  -- The payload's `buy_price`, `purchase_price` and `amount`, the contract's `buy_price` and `stake`, and the stored
  -- stake, in this order: the first that is positive.
  unfoldable pub resolve_executed_buy_stake : List (Option F) → F
  resolve_executed_buy_stake [] = nought
  resolve_executed_buy_stake (raw ∷ rest) =
      let later = resolve_executed_buy_stake rest in
      elim (positive raw) [ none ↦ later | some v ↦ v ]

  unfoldable pub reconcile_settlement_profit : F → F → F
  reconcile_settlement_profit api_profit executed_buy =
      let stake = fmax nought executed_buy in
      if lt api_profit nought && lt nought stake then f.neg stake else api_profit
