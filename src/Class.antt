-- ===== src/Class.antt =====
-- internal/controller/location_class_controller.go
pub mod Index
pub mod Client
pub mod Reconcile
pub mod Finalizer
pub mod Outcome
pub mod World
