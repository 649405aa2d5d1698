-- ===== src/Tests.antt =====
-- The theorems at concrete inputs.
mod Data
mod Remote
mod State
mod Policy
mod Discovery
mod Agent
mod Download
mod Site
mod Runs
mod Updates
mod Notifications
