-- ===== src/Analytics.antt =====
-- internal/analytics: materialized aggregates and the routing of queries to them.
pub mod Router
pub mod Store
pub mod Refresh
pub mod Capture
