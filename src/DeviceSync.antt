-- ===== src/DeviceSync.antt =====
-- src/server/services/device-sync.ts: the outbox between the database and Xray.
pub mod Jobs
pub mod Process
pub mod Redeem
pub mod Steps
pub mod Activation
pub mod Severed
pub mod Revocation
pub mod Frame
pub mod Loop
pub mod Drain
pub mod Retry
pub mod Queue
pub mod SecondLink
