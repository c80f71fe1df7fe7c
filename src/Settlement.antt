-- ===== src/Settlement.antt =====
-- The settlement of contracts in app/src/application/services/orchestrator/: the data and the state of the
-- orchestrator that its handlers read and write. What they send to other components is a list of events.
pub mod Detect
pub mod Quarantine
pub mod Outcome
pub mod Limits
pub mod Barrier
pub mod Process
pub mod Rows
pub mod Queue
pub mod Backfill
pub mod Worker
pub mod Reconciliation
pub mod Kept
pub mod Once
pub mod Final
pub mod Settles
use aether_quantum_engine.Common.{ℕ, String, Bool, Option, List, ◌++◌, [], ◌∷◌}
use aether_quantum_engine.Common.Int.{ℤ}
use aether_quantum_engine.Common.Dict.{Dict}
use aether_quantum_engine.Direction.{TradeDirection}
use aether_quantum_engine.Direction.LossTracker.{LossTracker}
use aether_quantum_engine.Risk.{RiskManager}
use aether_quantum_engine.Session.StopWin.{StopWinConfig}
use aether_quantum_engine.Session.State.{StateManager}

pub data TradeStatus : Type 0 where
  proposed open_status won lost error : TradeStatus

-- `Contract`, less the optional notes on its quote and entry.
pub record Contract (F : Type 0) : Type 0 where
  pub contract_id : ℕ
  pub proposal_id : String
  pub status : TradeStatus
  pub buy_price : F
  pub payout : F
  pub symbol : String
  pub direction : TradeDirection
  pub stake : F
  pub expiry_time : ℕ
  pub profit : Option F

-- The message `proposal_open_contract` of the broker, `none` for a missing key.
pub record Payload (F : Type 0) : Type 0 where
  pub contract_id : Option ℕ
  pub status : Option String
  pub is_settled : Option ℤ
  pub is_expired : Option ℤ
  pub profit : Option F
  pub balance_after : Option F
  pub underlying : Option String
  pub buy_price : Option F
  pub purchase_price : Option F
  pub amount : Option F

-- The calls of other components, with the arguments that the handlers compute.
pub data Event (F : Type 0) : Type 0 where
  symbol_outcome : String → Bool → Event F
  live_signal_outcome : String → Bool → Option F → Option String → Event F
  error_reversal_outcome : String → Bool → Option F → Option String → Event F
  side_equilibrium_outcome : String → String → Bool → F → Option F → ℕ → Event F
  trade_metrics : String → String → ℕ → F → F → Bool → Event F
  balance_metrics : F → ℕ → Event F
  stop_win_metrics : Event F
  cluster_summary : Event F
  contract_settlement_log : ℕ → String → Event F
  order_symbol_claim_released : String → Event F
  recovery_released : ℕ → Event F
  recovery_skip_reset : Event F
  pair_settlement : String → Bool → F → Event F
  loss_quarantine_stored : String → ℤ → Event F
  queued_in_redis : ℕ → Event F
  trading_cycle_scheduled : Event F
  full_state_persisted : Event F
  graceful_shutdown : Event F

-- `{"from_dir", "target_dir", "armed_at"}`
pub record LossReversal (F : Type 0) : Type 0 where
  pub from_dir : String
  pub target_dir : String
  pub armed_at : F

-- The part of the configuration in `pullback_strategy`.
pub record PullbackConfig : Type 0 where
  pub enabled : Bool
  pub reversal_on_loss : Bool
  pub period_seconds : ℕ
  pub loss_cooldown_candles : ℤ
  pub consecutive_loss_cooldown_candles : ℤ

-- `balance`, `active_contracts` and `is_trading` are those of `orch.state`, a TradingState; `ws_is_running` is
-- `orch.ws.is_running`. `now`, `monotonic` and `wall` are the readings of the
-- clock of days and of the loop's clock, in microseconds, and of `time.time()`; `settlement_redis_poll_at` and
-- `settlement_pending_since` are readings of the loop's clock. `redis_queue_locked` says whether the lock of the queue
-- in Redis, `_settlement_redis_lock`, is held. `has_exited` says that a stop win has shut the engine down: the process
-- ends in `os._exit(0)`, or, where the worker itself settled, its task is cancelled. Nothing that the handlers would do
-- later is done then.
pub record Orchestrator (F : Type 0) : Type 0 where
  pub balance : F
  pub active_contracts : Dict ℕ (Contract F)
  pub is_trading : Bool
  pub risk_manager : RiskManager F
  pub direction_losses : LossTracker
  pub state_mgr : Option (StateManager F)
  pub stop_win : StopWinConfig F
  pub pullback : PullbackConfig
  pub settled_contract_ids : List ℕ
  pub settlement_redis_enqueued : List ℕ
  pub settlement_redis_poll_at : ℕ
  pub redis_queue_locked : Bool
  pub settlement_queued_ids : List ℕ
  pub settlement_queue : Option (List (Payload F))
  pub settlement_pending_since : ℕ
  pub contract_cycle : Dict ℕ ℕ
  pub active_cycle_id : ℕ
  pub last_result_cycle_id : ℕ
  pub last_settlement_outcome : String
  pub session_wins : ℕ
  pub session_losses : ℕ
  pub last_loss_symbol : String
  pub last_loss_direction : String
  pub cluster_results : List (String × F)
  pub tick_count : ℕ
  pub pullback_contract_modes : Dict ℕ String
  pub symbol_consecutive_losses : Dict String ℕ
  pub pending_loss_reversals : Dict String (LossReversal F)
  pub symbol_loss_quarantine : Dict String F
  pub has_pair_tracker : Bool
  pub has_business_metrics : Bool
  pub has_redis : Bool
  pub ws_is_running : Bool
  pub running : Bool
  pub has_exited : Bool
  pub shutdown_reason : Option String
  pub now : ℕ
  pub monotonic : ℕ
  pub wall : F
  pub events : List (Event F)

abbrev pub emit : {F : Type 0} → Event F → Orchestrator F → Orchestrator F
emit e o = record o { events = o.events ++ e ∷ [] }
