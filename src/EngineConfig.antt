-- ===== src/EngineConfig.antt =====
-- src/server/adapters/engines.ts: the configuration of the engines.
pub mod Template
pub mod Diff
pub mod Configs
pub mod Active
