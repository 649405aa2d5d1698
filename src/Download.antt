-- ===== src/Download.antt =====
-- server/src/update_download.rs: downloading a package to a staging directory.
pub mod Files
pub mod Request
pub mod Http
pub mod Stage
pub mod Paths
pub mod Staged
pub mod Frame
pub mod Untouched
pub mod Redirects
