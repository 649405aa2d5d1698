-- ===== src/State.antt =====
-- server/src/update_state.rs: the persistent state of the updater in SQLite.
pub mod Types
pub mod Validate
pub mod Channel
pub mod Status
pub mod Db
pub mod Sql
pub mod Rows
pub mod Store
pub mod Requests
pub mod Atomic
pub mod Newer
pub mod Replay
pub mod Preferences
pub mod Versions
pub mod Rollback
pub mod Claims
pub mod Identity
