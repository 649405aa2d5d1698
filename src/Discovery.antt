-- ===== src/Discovery.antt =====
-- server/src/update_discovery.rs: finding an update through a signed manifest.
pub mod Types
pub mod Manifest
pub mod Fetch
pub mod Service
pub mod Versions
pub mod Validated
pub mod Outcome
pub mod Gate
pub mod Origin
pub mod Offer
