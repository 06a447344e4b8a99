-- ===== src/Monitoring.antt =====
-- src/server/services/monitoring.ts: one state per monitored key, changed by each poll.
pub mod State
pub mod Observe
pub mod Services
pub mod Thresholds
pub mod Collect
pub mod Polls
