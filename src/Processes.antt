-- ===== src/Processes.antt =====
-- crates/hermes-skill-tools/src/tools/process_registry.rs: the registry of background processes.
pub mod Buffer
pub mod Registry
pub mod Operations
pub mod Invariant
pub mod Sessions
pub mod Steps
pub mod Reachable
pub mod Delivery
pub mod Shown
pub mod Waiting
