-- ===== src/Operator.antt =====
-- cmd/locations/cmd/operator.go: how the operator starts.
pub mod Client
pub mod Run
pub mod Enabled
