-- ===== src/Settlement/Outcome.antt =====
-- settlement_outcome.py: what a settled contract does to the balance, the risk state and the session's counts.
use aether_quantum_engine.Common.{
  ℕ, ◌+◌, String, Bool, not, ◌&&◌, ◌||◌, Option, none, some, List, [], ◌∷◌, ◌++◌, if◌then◌else◌,
  ◌==◌, string_eq, nat_eq, leb, length,
}
use aether_quantum_engine.Common.Dict.{get, get_default, put, pop, has_key}
use aether_quantum_engine.Common.Float.{Float, nought, fmax, fabs}
use aether_quantum_engine.Direction.{name}
use aether_quantum_engine.Direction.LossTracker.{record_outcome}
use aether_quantum_engine.Risk.{RiskManager}
use aether_quantum_engine.Risk.Pending.{resolve_executed_buy_stake, reconcile_settlement_profit}
use aether_quantum_engine.Risk.Settlement.{apply_contract_settlement_result}
use aether_quantum_engine.Settlement.{
  Contract, Payload, Orchestrator, symbol_outcome, live_signal_outcome, error_reversal_outcome,
  side_equilibrium_outcome, trade_metrics, balance_metrics, cluster_summary, emit,
}
use aether_quantum_engine.Settlement.Detect.{label_of_profit}

-- What `pop_contract_audit` keeps of the decision behind a contract.
pub record Audit (F : Type 0) : Type 0 where
  pub audit_direction : Option String
  pub audit_raw_prob : Option F

-- `d if d` is false for `None` and for the empty text.
abbrev pub truthy : Option String → Option String
truthy none = none
truthy (some d) = if d == "" then none else some d

-- `a or b`
abbrev pub or_else : Option String → Option String → Option String
or_else a b = elim (truthy a) [ none ↦ b | some d ↦ some d ]

abbrev pub default_to : Option String → String → String
default_to none d = d
default_to (some s) d = s

module _ {F : Type 0} ⦃f : Float F⦄ where
  open f use {lit, add, sub, le, lt}

  -- The broker's balance where it is within 2 of the engine's own sum, or where the engine has none.
  pub balance_after_settlement : F → F → Option F → F
  balance_after_settlement balance profit none = add balance profit
  balance_after_settlement balance profit (some api_balance) =
      if le balance nought || le (fabs (sub api_balance (add balance profit))) (lit 2 0)
      then api_balance
      else add balance profit

  abbrev pub dir_name_of : Option (Contract F) → Option String → Option String
  dir_name_of none audit = truthy audit
  dir_name_of (some contract) audit = some (name contract.direction)

  abbrev pub buy_price_of : Option (Contract F) → Option F
  buy_price_of none = none
  buy_price_of (some contract) = some contract.buy_price

  abbrev pub stake_of : Option (Contract F) → Option F
  stake_of none = none
  stake_of (some contract) = some contract.stake

  -- The stakes in the order in which they are tried.
  abbrev pub stake_candidates :
      Payload F → Option (Contract F) → RiskManager F → ℕ → List (Option F)
  stake_candidates c contract rm cid =
      c.buy_price
      ∷ c.purchase_price
      ∷ c.amount
      ∷ buy_price_of contract
      ∷ stake_of contract
      ∷ get cid rm.contract_stakes
      ∷ []

  -- `setdefault` of the planned stake, where it is positive.
  abbrev pub with_planned_stake : Option F → ℕ → RiskManager F → RiskManager F
  with_planned_stake none cid rm = rm
  with_planned_stake (some planned) cid rm =
      if lt nought planned && not (has_key cid rm.contract_requested_stakes)
      then record rm { contract_requested_stakes = put cid planned rm.contract_requested_stakes }
      else rm

  -- `bind_executed_stake_for_contract`
  abbrev pub bind_executed_stake : ℕ → F → RiskManager F → RiskManager F
  bind_executed_stake cid executed_buy rm =
      let stake = fmax nought executed_buy in
      if lt nought stake
      then record rm { contract_stakes = put cid stake rm.contract_stakes }
      else rm

  -- `_record_directional_learning`. The tracker of losses is the process-wide one.
  abbrev pub record_side_equilibrium :
      Orchestrator F → String → ℕ → F → Option String → Option F → Orchestrator F
  record_side_equilibrium o sym cid profit none raw_prob = o
  record_side_equilibrium o sym cid profit (some d) raw_prob =
      if lt (lit 1 12) (fabs profit)
      then emit
          (side_equilibrium_outcome sym d (lt nought profit) profit raw_prob
            (get_default cid 0 o.contract_cycle))
          o
      else o

  abbrev pub record_direction : Orchestrator F → String → Bool → Option String → Orchestrator F
  record_direction o sym won none = o
  record_direction o sym won (some d) = record o {
    direction_losses = record_outcome o.direction_losses o.now sym (some d) won;
  }

  unfoldable pub record_directional_learning :
      Orchestrator F → String → ℕ → F → Option String → Audit F → Orchestrator F
  record_directional_learning o sym cid profit dir_name audit =
      let won = le nought profit in
      let side = or_else dir_name audit.audit_direction in
      let live = emit (live_signal_outcome sym won audit.audit_raw_prob side) o in
      let tracked = record_direction live sym won dir_name in
      let reversed = emit (error_reversal_outcome sym won audit.audit_raw_prob side) tracked in
      record_side_equilibrium reversed sym cid profit dir_name audit.audit_raw_prob

  abbrev pub count_result : Orchestrator F → F → String → Option String → Orchestrator F
  count_result o profit sym dir_name =
      if le nought profit then record o { session_wins = o.session_wins + 1 } else record o {
        session_losses = o.session_losses + 1;
        last_loss_symbol = sym;
        last_loss_direction = default_to dir_name "";
      }

  abbrev pub business_metrics : Orchestrator F → String → ℕ → F → F → Option String → Orchestrator F
  business_metrics o sym cid profit stake dir_name =
      if o.has_business_metrics
      then emit (balance_metrics o.balance (length o.risk_manager.active_contract_ids)) (
          emit
            (trade_metrics sym (default_to dir_name "UNKNOWN") cid profit stake (le nought profit))
            o)
      else o

  -- `log_cluster_summary` empties the results of the cluster.
  abbrev pub close_cluster : Orchestrator F → Orchestrator F
  close_cluster o =
      if leb (length o.risk_manager.active_contract_ids) 0
      then record (emit cluster_summary o) { cluster_results = [] }
      else o

  abbrev pub settled_symbol : RiskManager F → Payload F → ℕ → String
  settled_symbol rm c cid = get_default cid (default_to c.underlying "UNK") rm.contract_to_symbol

  -- The balance, and the stake that the purchase cost.
  abbrev pub bind_outcome : Orchestrator F → Payload F → ℕ → F → F → RiskManager F → Orchestrator F
  bind_outcome o c cid api_profit executed_buy planned = record o {
    balance = balance_after_settlement o.balance api_profit c.balance_after;
    risk_manager = bind_executed_stake cid executed_buy planned;
  }

  -- `register_result`, and the notes on the cluster and the cycle.
  abbrev pub register_outcome : Orchestrator F → ℕ → String → F → Option String → Orchestrator F
  register_outcome o cid sym profit dir_name = record o {
    risk_manager =
        apply_contract_settlement_result o.risk_manager profit cid sym o.tick_count dir_name;
    cluster_results = o.cluster_results ++ (sym, profit) ∷ [];
    last_result_cycle_id = get_default cid 0 o.contract_cycle;
    contract_cycle = pop cid o.contract_cycle;
    last_settlement_outcome = label_of_profit profit;
  }

  unfoldable pub process_contract_outcome :
      Orchestrator F → Payload F → Option (Contract F) → ℕ → F → Audit F → Orchestrator F
  process_contract_outcome o c contract cid api_profit audit =
      let sym = settled_symbol o.risk_manager c cid in
      let dir_name = dir_name_of contract audit.audit_direction in
      let planned = with_planned_stake (stake_of contract) cid o.risk_manager in
      let executed_buy = resolve_executed_buy_stake (stake_candidates c contract planned cid) in
      let profit = reconcile_settlement_profit api_profit executed_buy in
      let bound = bind_outcome o c cid api_profit executed_buy planned in
      let told = emit (symbol_outcome sym (le nought profit)) bound in
      let learned = record_directional_learning told sym cid profit dir_name audit in
      let counted =
        count_result (register_outcome learned cid sym profit dir_name) profit sym dir_name in
      close_cluster (business_metrics counted sym cid profit executed_buy dir_name)
