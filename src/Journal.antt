-- ===== src/Journal.antt =====
-- src/server/services/journal.ts: the user-facing journal, and the audit log beside it.
pub mod Json
pub mod Sanitize
pub mod Types
pub mod Record
pub mod Listing
pub mod Paging
pub mod Order
