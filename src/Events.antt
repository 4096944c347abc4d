-- ===== src/Events.antt =====
-- The event triggers of internal/events/triggers.go.
pub mod Table
pub mod Delivery
pub mod Held
pub mod Fetch
pub mod Deliveries
pub mod Runs
pub mod Retries
