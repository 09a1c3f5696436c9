-- ===== src/Retry.antt =====
-- src/retry.rs.
pub mod Backoff
pub mod RetryAfter
pub mod Classify
pub mod Budget
pub mod Policy
pub mod Builder
pub mod Samples
mod Tests
