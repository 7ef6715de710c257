-- ===== src/Time.antt =====
-- The package gtime: the timer wheel of gtime/timerwheel.go.
pub mod Wheel
