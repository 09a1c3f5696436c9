-- ===== src/Redirect.antt =====
-- src/redirect.rs: the policy for redirects, and its use by the crate `tower_http`.
pub mod Policy
pub mod Tower
mod Tests
