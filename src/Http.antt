-- ===== src/Http.antt =====
-- src/server/http.ts: which requests reach which handler, and the parsing of query parameters.
pub mod Endpoints
pub mod Guard
pub mod Scopes
pub mod Confinement
pub mod Reading
