-- ===== src/Rate.antt =====
-- The package grate: an adaptive limit on the requests in flight, and the queue of those above it.
pub mod Sample
pub mod Floats
pub mod Vegas
pub mod Codel
pub mod Limiter
mod Tests
