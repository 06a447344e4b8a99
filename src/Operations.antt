-- ===== src/Operations.antt =====
-- src/server/services/operations.ts: privileged operations, confirmed before they run.
pub mod Actions
pub mod Validate
pub mod Run
pub mod Once
pub mod Lifecycle
pub mod Removal
