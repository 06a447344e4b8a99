-- ===== src/Tests.antt =====
-- Runs of the theorems on concrete tables.
pub mod Monitoring
pub mod Tables
pub mod Traffic
pub mod Sync
pub mod Auth
pub mod Onboarding
pub mod Invitations
pub mod Routes
pub mod Operations
pub mod Http
pub mod Journal
pub mod EngineConfig
pub mod Setup
pub mod System
