-- ===== src/Direction.antt =====
-- Which side, CALL or PUT, a cycle trades, and how losses change it: app/src/domain/models/trade.py,
-- app/src/application/services/direction_loss_tracker.py and the modules that correct a side.
pub mod LossTracker
pub mod Regime
pub mod Flip
pub mod Quote
pub mod Reversal
pub mod PairTracker
use aether_quantum_engine.Common.{String, List, [], ◌∷◌}

-- `TradeDirection`
pub data TradeDirection : Type 0 where
  call put multup multdown : TradeDirection

-- `direction.name`
abbrev pub name : TradeDirection → String
name call = "CALL"
name put = "PUT"
name multup = "MULTUP"
name multdown = "MULTDOWN"

-- `_DIRECTION_KEYS`
abbrev pub direction_keys : List String
direction_keys = "CALL" ∷ "PUT" ∷ []
