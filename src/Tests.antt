-- ===== src/Tests.antt =====
-- Runs of the model at concrete inputs, and instances of its theorems.
mod ResolverTests
mod CacheTests
mod AuthTests
mod EventsTests
mod SubscriptionTests
mod ShutdownTests
mod AnalyticsTests
mod RefreshTests
mod CaptureTests
mod ConfigurationTests
mod SchemaTests
mod ServerTests
mod RedisTests
