-- ===== src/Distribution.antt =====
-- server/src/update_distribution.rs: which URLs, redirects and sizes an update may have.
pub mod Policy
pub mod Assets
pub mod Redirects
