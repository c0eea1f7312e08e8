-- ===== src/Deepcopy.antt =====
-- The generated deep copies of internal/config and api/v1alpha1 over a store of pointers.
pub mod Store
pub mod Operator
pub mod Separate
pub mod Kinds
pub mod Apart
pub mod Objects
pub mod Each
