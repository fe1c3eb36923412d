-- ===== src/Distributed.antt =====
-- qndb/distributed: the consensus protocol.
pub mod Log
pub mod Raft
pub mod Handlers
pub mod Node
pub mod Pbft
pub mod Clock
pub mod Replicas
pub mod Regions
mod Tests
