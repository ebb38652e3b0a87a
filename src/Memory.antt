-- ===== src/Memory.antt =====
-- crates/hermes-skill-tools/src/tools/memory/store.rs: the persistent memory. `Entries` is the
-- file format, `Store` the operations.
pub mod Entries
pub mod RoundTrip
pub mod Store
pub mod Distinct
pub mod Matching
pub mod Adding
pub mod Editing
