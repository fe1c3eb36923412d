-- ===== src/Pool.antt =====
-- qndb/interface/connection_pool.py: the wire protocol, the prepared statements of a connection, and the
-- pool of connections.
pub mod Wire
pub mod Prepared
pub mod Connections
mod Tests
