-- ===== src/Risk.antt =====
-- app/src/domain/risk/risk_manager.py: the state of `RiskManager` and the methods that only write a field.
pub mod Pending
pub mod Cluster
pub mod Settlement
pub mod Skip
pub mod Pullback
pub mod Snapshot
use aether_quantum_engine.Common.{
  ℕ, suc, ◌-◌, String, Bool, Option, none, some, List, [], ◌∷◌, ◌++◌, if◌then◌else◌, ltb, length,
  drop, nat_eq, string_eq, ◌==◌,
}
use aether_quantum_engine.Common.Dict.{Dict, get_default, put}
use aether_quantum_engine.Common.Float.{Float, nought, fmax}

-- What the manager reads of its configuration: `soft_recovery_config["dust_pending_clear_max"]`, `risk_params` and the
-- `payout_fallback` of the settings.
pub record Config (F : Type 0) : Type 0 where
  pub dust_pending_clear_max : F
  pub risk_params : Dict String F
  pub payout_fallback : F

pub record RiskManager (F : Type 0) : Type 0 where
  pub config : Config F
  pub rolling_wins : Dict String (List ℕ)
  pub initial_bankroll : F
  pub daily_stop_win_target : F
  pub total_session_profit : F
  pub peak_session_profit : F
  pub last_result_tick : ℕ
  pub consecutive_losses_linear : ℕ
  pub dlambert_unit : F
  pub pending_loss : Dict String F
  pub last_loss_stake : F
  pub proposal_skip_cycles : Dict String ℕ
  pub contract_stakes : Dict ℕ F
  pub contract_requested_stakes : Dict ℕ F
  pub last_loss_symbol : Option String
  pub last_loss_direction : Option String
  pub active_contract_ids : List ℕ
  pub contract_to_symbol : Dict ℕ String
  pub cluster_results : Dict ℕ F
  pub expected_cluster_settlements : ℕ
  pub linear_reset_occurred : Bool

abbrev pub or_stake {ℓ} : {A : Type ℓ} → Option A → A → A
or_stake none stake = stake
or_stake (some requested) stake = requested

-- `if direction:` is false for `None` and for the empty text.
abbrev pub or_old : Option String → Option String → Option String
or_old none old = old
or_old (some d) old = if d == "" then old else some d

module _ {F : Type 0} ⦃f : Float F⦄ where
  pub reset_session : RiskManager F → F → F → RiskManager F
  reset_session rm bankroll target = record rm {
    total_session_profit = nought;
    initial_bankroll = bankroll;
    daily_stop_win_target = fmax nought target;
    dlambert_unit = nought;
    consecutive_losses_linear = 0;
    pending_loss = [];
  }

  -- The last 100 results of each symbol, 1 for a win.
  unfoldable pub record_trade_outcome : RiskManager F → String → Bool → RiskManager F
  record_trade_outcome rm symbol won =
      let lst = get_default symbol [] rm.rolling_wins ++ (if won then 1 else 0) ∷ [] in
      let kept = if ltb 100 (length lst) then drop (length lst - 100) lst else lst in
      record rm { rolling_wins = put symbol kept rm.rolling_wins }

  unfoldable pub record_loss_context : RiskManager F → String → Option String → RiskManager F
  record_loss_context rm symbol direction = record rm {
    last_loss_symbol = some symbol;
    last_loss_direction = or_old direction rm.last_loss_direction;
  }

  pub begin_cluster : RiskManager F → ℕ → RiskManager F
  begin_cluster rm expected = record rm {
    expected_cluster_settlements = expected;
    cluster_results = [];
  }

  -- `requested` defaults to the stake.
  unfoldable pub record_contract_stake : RiskManager F → ℕ → F → Option F → RiskManager F
  record_contract_stake rm cid stake requested = record rm {
    contract_stakes = put cid stake rm.contract_stakes;
    contract_requested_stakes = put cid (or_stake requested stake) rm.contract_requested_stakes;
  }
