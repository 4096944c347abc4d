-- ===== src/Cache.antt =====
-- internal/cache: the query and schema cache.
pub mod Memory
pub mod Manager
pub mod Redis
