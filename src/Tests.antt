-- ===== src/Tests.antt =====
-- Runs over small concrete worlds, and the theorems applied to them.
mod Memory
mod Publisher
mod Classes
mod Operator
mod Planes
mod Held
mod Wiring
mod Copies
