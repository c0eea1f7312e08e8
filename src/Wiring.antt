-- ===== src/Wiring.antt =====
-- internal/controller, the `SetupWithManager` functions: what each controller hands to the manager.
pub mod Client
pub mod Setup
pub mod Requests
pub mod Concerns
pub mod Filled
