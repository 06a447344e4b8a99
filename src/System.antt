-- ===== src/System.antt =====
-- src/server/services/system.ts: the health shown, and the order of the engines.
pub mod Engines
pub mod EngineOrder
