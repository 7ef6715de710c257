-- ===== src/Local.antt =====
-- The package gls: storages that belong to goroutines.
pub mod TimeMap
pub mod Storage
mod Tests
