-- ===== src/Routes.antt =====
-- src/server/services/routes.ts: the draft of the routing rules and its published revisions.
pub mod Draft
pub mod Edit
pub mod Publish
pub mod History
