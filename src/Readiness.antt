-- ===== src/Readiness.antt =====
-- internal/controller/location_readiness_controller.go
pub mod Client
pub mod Evaluate
pub mod Report
pub mod Claimed
pub mod Ready
pub mod Adopted
pub mod Outcome
pub mod Accepted
pub mod Accepting
