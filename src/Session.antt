-- ===== src/Session.antt =====
-- The session of one run of the engine: its target of profit, and the state that is kept on disk.
pub mod StopWin
pub mod State
