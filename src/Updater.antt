-- ===== src/Updater.antt =====
-- app/updater/service.go: the update service, with its requests, its update run over the platform
-- supervisor of app/supervisor/supervisor.go, and its recovery after a crash.
pub mod Operation
pub mod Service
pub mod Start
pub mod Run
pub mod Recovery
pub mod Crash
mod Examples
pub mod Server
