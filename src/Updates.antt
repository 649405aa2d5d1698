-- ===== src/Updates.antt =====
-- server/src/handlers/updates.rs: the HTTP handlers that join discovery, download, the Agent flow and
-- the update state.
pub mod Server
pub mod Access
pub mod Proxy
pub mod Channel
pub mod Target
pub mod Download
pub mod Staged
pub mod Operation
pub mod Verify
pub mod Install
pub mod Visits
pub mod Moves
pub mod Runs
pub mod Rules
pub mod Refine
pub mod Installs
pub mod Once
pub mod Guards
pub mod Ends
pub mod Downloaded
pub mod Reread
pub mod Located
pub mod Verified
pub mod Claimed
pub mod Progress
pub mod Kept
pub mod Allowed
pub mod Silent
