-- ===== src/Core.antt =====
-- crates/hermes-core: the types that providers, the loop and the tools share.
pub mod Json
pub mod Message
pub mod Errors
pub mod Usage
pub mod Provider
pub mod Accumulator
pub mod Truncation
pub mod Tools
