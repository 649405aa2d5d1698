-- ===== src/Agent.antt =====
-- server/src/update_agent.rs and server/src/update_agent_flow.rs: the Update Agent's client, and
-- the flow from a staged package to a verified and an installed one.
pub mod Transport
pub mod Flow
pub mod Confirmed
pub mod Sent
pub mod Verified
