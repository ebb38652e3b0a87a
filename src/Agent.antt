-- ===== src/Agent.antt =====
-- crates/hermes-agent: sessions, compaction and the agent loop.
pub mod Files
pub mod Session
pub mod Registry
pub mod Compaction
pub mod Failure
pub mod Turn
pub mod Reaction
pub mod Loop
pub mod Host
pub mod Events
