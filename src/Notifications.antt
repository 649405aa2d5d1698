-- ===== src/Notifications.antt =====
-- server/src/handlers/notifications.rs: what the producers of notifications have written, put
-- together in one aggregate.
pub mod Time
pub mod Item
pub mod Producers
pub mod Aggregate
pub mod Socket
pub mod Session
pub mod Store
pub mod Whole
pub mod Lasting
pub mod Severity
pub mod Kinds
pub mod Order
pub mod Totals
