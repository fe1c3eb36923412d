-- ===== src/Audit.antt =====
-- qndb/security/audit: the log of events.
pub mod Event
pub mod Json
pub mod Sinks
pub mod Chain
pub mod Retention
pub mod Requests
mod Tests
