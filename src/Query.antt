-- ===== src/Query.antt =====
-- qndb/interface/query and qndb/interface/query_executor.py: from the text of a WHERE clause to rows.
pub mod Result
pub mod Token
pub mod Lexer
pub mod Where
pub mod Texts
pub mod Params
pub mod Rows
pub mod Plan
pub mod Statements
mod Tests
