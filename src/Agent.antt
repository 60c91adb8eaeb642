-- ===== src/Agent.antt =====
-- crates/corpus-agent: the endpoint agent.
pub mod Sensors
pub mod Spool
pub mod StableRead
pub mod State
pub mod Capture
mod Examples
