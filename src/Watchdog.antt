-- ===== src/Watchdog.antt =====
-- app/integration/watchdog/watchdog.go: the health assessment, the restart guard and the monitor
-- that escalates from a reconnect to a process restart.
pub mod Health
pub mod Guard
pub mod Monitor
mod Examples
