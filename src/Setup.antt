-- ===== src/Setup.antt =====
-- src/server/services/setup.ts: how the server gets its domain.
pub mod Domain
pub mod Finalize
pub mod Checks
