-- ===== src/Scheduling.antt =====
-- qndb/middleware/scheduling: jobs, quotas, backpressure and the qubits that running jobs hold.
pub mod Job
pub mod Quota
pub mod Resources
mod Tests
