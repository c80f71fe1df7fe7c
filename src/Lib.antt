-- ===== src/Lib.antt =====
-- A verification library for aether-quantum-engine, a trading engine for binary options.
--
-- The engine buys contracts of a broker in cycles, hears of their settlement by several ways at once, and keeps the
-- session's balance, its pending losses and its target. The parts and their files here:
--   Common      shared types, lists, dictionaries, integers, texts, and floats as an interface with the laws of IEEE 754
--               that the proofs use. Python's float is a parameter: no theorem depends on a particular rounding.
--   Handlers    app/src/infrastructure/handlers/disruptor_ring_buffer.py: the ring buffer of ticks;
--               app/src/infrastructure/api/deriv_granularity.py: the periods of candles that the broker takes.
--   Direction   app/src/application/services/direction_loss_tracker.py: runs of losses by symbol and side,
--               and when they turn a side;
--               app/src/application/services/orchestrator/session_pair_tracker.py: streaks by symbol;
--               app/src/domain/trading/elastic_regime.py: the side of a signal in each regime;
--               app/src/application/services/rise_fall_quote_guard.py: whether the payout is worth the risk on a side;
--               app/src/application/services/direction_error_reversal.py: one flip after a loss that the model was sure of.
--   Risk        app/src/domain/risk/: the risk state (RiskManager), how a settled contract changes it, the recovery of
--               pending losses, the end of a cluster, symbols that sit out, the stake of a pullback order, and the
--               snapshot that outlives the process.
--   Stake       app/src/domain/risk/risk_stake_calc.py with the files that it calls: the caps and minima that a proposed
--               stake passes before it is sent. The proposed stake and the settings are arguments.
--   Session     app/src/domain/risk/stop_win_target.py and app/src/infrastructure/state/state_manager.py: the target of
--               a session and its state with the file.
--   Settlement  app/src/application/services/orchestrator/: the handlers of confirmed purchases and of settlement
--               messages, which call Risk, Session and Direction and are the root of everything that changes at a
--               settlement. A handler runs under one lock, so it is one step here; calls of other components are events.
--               A stop win ends the process inside the handler: the state then says that the engine has exited.
--               Barrier beside them: what is saved after a reset of the linear recovery.
--               Rows, Queue, Backfill, Worker and Reconciliation beside them: the queue in Redis, the ways to settle a
--               contract without a message, the worker, the cleaner of orphans and the audit after a reconnection; the
--               broker's answers are arguments.
--   Claims      app/src/application/services/indicator_order_claims.py, indicator_purchase_quarantine.py and
--               pullback_recovery_claim.py beside it: reservations of a candle and of the pending loss. Redis is a
--               parameter, an interface of the calls with the laws that its documentation gives.
--   Indicator   indicator/app/src/indicator/domain.py: which candles of the broker are read, the block at the end without
--               a gap, and candles of a longer period out of shorter ones.
--   Tests       runs on concrete inputs, with fixed-point numbers for the floats.
-- A function has the name it has in the code, without a leading underscore. A dictionary is a list of its entries in
-- order of insertion. A handler that raises returns `none`, or a flag that it did not run to its end. There is no fuel:
-- the loops are over lists.
--
-- Not modelled: the sizing that proposes a stake, the gates before a purchase, learning,
-- statistics, storage, network and output.
pub mod Common
pub mod Handlers
pub mod Direction
pub mod Risk
pub mod Stake
pub mod Session
pub mod Settlement
pub mod Claims
pub mod Indicator
pub mod Tests
