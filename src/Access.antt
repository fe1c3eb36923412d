-- ===== src/Access.antt =====
-- qndb/security/authorization: who may do what.
pub mod Models
pub mod Login
pub mod RowSecurity
pub mod Attributes
pub mod Hierarchy
pub mod Manager
pub mod Checks
pub mod Queries
mod Tests
mod ManagerTests
