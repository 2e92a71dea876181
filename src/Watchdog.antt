-- ===== src/Watchdog.antt =====
-- The watchdogs: src/watchdog.
pub mod Election
pub mod Monitor
