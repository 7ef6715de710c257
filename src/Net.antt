-- ===== src/Net.antt =====
-- The package gnet: the limiting listener of gnet/listen.go.
pub mod Listener
pub mod Backoff
pub mod Http
