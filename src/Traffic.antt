-- ===== src/Traffic.antt =====
-- src/server/services/traffic.ts: counters of the engines, presence and facts of the devices.
pub mod Samples
pub mod Record
pub mod Volume
pub mod Compact
pub mod Conservation
pub mod Presence
pub mod Metered
pub mod Facts
pub mod Telemetry
pub mod Polls
pub mod Absence
