-- ===== src/Transactions.antt =====
-- qndb/interface/transactions: transactions, the write-ahead log, the version store, the manager.
pub mod Transaction
pub mod Wal
pub mod Mvcc
pub mod Locking
pub mod Manager
mod Tests
