-- ===== src/Publisher.antt =====
-- internal/controller/location_publisher_controller.go
pub mod Client
pub mod Ownership
pub mod Policy
pub mod Hub
pub mod Guard
pub mod Publish
pub mod Removal
pub mod Reconcile
pub mod Deletion
pub mod Writing
pub mod Outcome
pub mod World
pub mod Whole
