-- ===== src/Claims.antt =====
-- The claims that keep two cycles, or two processes on one account, from the same purchase. Redis is a parameter: the
-- operations that the code calls and what its documentation says of them.
pub mod Store
pub mod Orders
pub mod Recovery
