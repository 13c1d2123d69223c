-- ===== src/Loxone.antt =====
-- The Loxone command core: app/roborock/loxone.go, loxone_activity.go and command_coordinator.go.
pub mod Status
pub mod Command
pub mod Activity
pub mod Inventory
pub mod Messages
pub mod Coordinator
pub mod Core
pub mod Examples
