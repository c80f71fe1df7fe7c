-- ===== src/Tests.antt =====
-- Runs of the models on concrete inputs, with fixed-point numbers for the floats.
pub mod Indicator
pub mod Data
pub mod Claims
pub mod Direction
pub mod Handlers
pub mod Risk
pub mod Session
pub mod Settlement
pub mod Queue
pub mod Stake
