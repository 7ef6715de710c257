-- ===== src/Strings.antt =====
-- The package gstr: lists of integers as text.
pub mod Join
pub mod HumanBytes
mod Tests
