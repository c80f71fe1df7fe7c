-- ===== src/Handlers.antt =====
-- app/src/infrastructure/handlers: the buffers that take in ticks.
pub mod RingBuffer
pub mod Granularity
