-- ===== src/Tests/Data.antt =====
-- The inputs of the tests: amounts are in units of 10^-6.
use aether_quantum_engine.Common.{ℕ, ◌-◌, ◌*◌, true, false, none, some, [], ◌∷◌}
use aether_quantum_engine.Common.Int.{ℤ, pos, negsuc}
use aether_quantum_engine.Direction.{call}
use aether_quantum_engine.Direction.LossTracker.{reset}
use aether_quantum_engine.Risk.{Config, RiskManager}
use aether_quantum_engine.Session.StopWin.{StopWinConfig}
use aether_quantum_engine.Session.State.{StateManager, SessionState}
use aether_quantum_engine.Settlement.{Contract, Payload, Orchestrator, PullbackConfig, open_status}
use aether_quantum_engine.Settlement.Outcome.{Audit}

abbrev pub dollars : ℕ → ℤ
dollars n = pos (n * 1_000_000)

-- A loss of `n` dollars, `n` above 0.
abbrev pub negative : ℕ → ℤ
negative n = negsuc (n * 1_000_000 - 1)

abbrev pub risk_config : Config ℤ
risk_config = record {
  dust_pending_clear_max = pos 350_000;
  risk_params = ("payout", pos 950_000) ∷ [];
  payout_fallback = pos 850_000;
}

-- Contract 7 is open on R_100 with a stake of 10, and the symbol has a pending loss of 4.
abbrev pub risk : RiskManager ℤ
risk = record {
  config = risk_config;
  rolling_wins = [];
  initial_bankroll = dollars 200;
  daily_stop_win_target = dollars 20;
  total_session_profit = pos 0;
  peak_session_profit = pos 0;
  last_result_tick = 0;
  consecutive_losses_linear = 1;
  dlambert_unit = dollars 1;
  pending_loss = ("R_100", dollars 4) ∷ [];
  last_loss_stake = dollars 4;
  proposal_skip_cycles = [];
  contract_stakes = (7, dollars 10) ∷ [];
  contract_requested_stakes = (7, dollars 10) ∷ [];
  last_loss_symbol = none;
  last_loss_direction = none;
  active_contract_ids = 7 ∷ [];
  contract_to_symbol = (7, "R_100") ∷ [];
  cluster_results = [];
  expected_cluster_settlements = 1;
  linear_reset_occurred = false;
}

abbrev pub stop_win_config : StopWinConfig ℤ
stop_win_config = record {
  small_account_threshold = none;
  small_account_stop_win = none;
  large_account_stop_win_pct = none;
  compounding_enabled = some true;
  compounding_rate_daily = none;
  params_session_start_balance = none;
  stop_win_target_tolerance_ratio = none;
}

abbrev pub session : SessionState ℤ
session = record {
  initial_balance = dollars 200;
  current_balance = dollars 205;
  daily_stop_win_target = dollars 8;
  total_trades_today = 3;
  stop_win_triggered = false;
}

abbrev pub manager : StateManager ℤ
manager = record { persistence = none; state = session; balance_snapshot = dollars 205 }

abbrev pub contract : Contract ℤ
contract = record {
  contract_id = 7;
  proposal_id = "p7";
  status = open_status;
  buy_price = dollars 10;
  payout = dollars 19;
  symbol = "R_100";
  direction = call;
  stake = dollars 10;
  expiry_time = 900;
  profit = none;
}

abbrev pub pullback : PullbackConfig
pullback = record {
  enabled = true;
  reversal_on_loss = true;
  period_seconds = 900;
  loss_cooldown_candles = pos 1;
  consecutive_loss_cooldown_candles = pos 2;
}

abbrev pub engine : Orchestrator ℤ
engine = record {
  balance = dollars 195;
  active_contracts = (7, contract) ∷ [];
  is_trading = true;
  risk_manager = risk;
  direction_losses = reset;
  state_mgr = some manager;
  stop_win = stop_win_config;
  pullback = pullback;
  settled_contract_ids = [];
  settlement_redis_enqueued = [];
  settlement_redis_poll_at = 0;
  redis_queue_locked = false;
  settlement_queued_ids = [];
  settlement_queue = some [];
  settlement_pending_since = 0;
  contract_cycle = (7, 12) ∷ [];
  active_cycle_id = 12;
  last_result_cycle_id = 11;
  last_settlement_outcome = "FLAT";
  session_wins = 0;
  session_losses = 0;
  last_loss_symbol = "";
  last_loss_direction = "";
  cluster_results = [];
  tick_count = 42;
  pullback_contract_modes = [];
  symbol_consecutive_losses = [];
  pending_loss_reversals = [];
  symbol_loss_quarantine = [];
  has_pair_tracker = true;
  has_business_metrics = true;
  has_redis = true;
  ws_is_running = true;
  running = true;
  has_exited = false;
  shutdown_reason = none;
  now = 1_000;
  monotonic = 5_000_000;
  wall = dollars 1_000;
  events = [];
}

abbrev pub lost : Payload ℤ
lost = record {
  contract_id = some 7;
  status = some "lost";
  is_settled = some (pos 1);
  is_expired = none;
  profit = some (negative 10);
  balance_after = some (dollars 185);
  underlying = some "R_100";
  buy_price = some (dollars 10);
  purchase_price = none;
  amount = none;
}

abbrev pub no_audit : Audit ℤ
no_audit = record { audit_direction = some "CALL"; audit_raw_prob = none }
