-- ===== src/Usage.antt =====
-- Traffic usage: internal/service/usage_service.go and quota_service.go.
pub mod Service
mod Flush
mod Keys
mod Counters
mod Conservation
mod Failures
pub mod Quota
mod Tests
