-- ===== src/Caching.antt =====
-- qndb/middleware/cache.py: the result cache, the query cache, and the ring that spreads keys.
pub mod Results
pub mod Ring
mod Tests
