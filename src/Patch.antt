-- ===== src/Patch.antt =====
-- crates/hermes-skill-tools/src/tools/files/patch.rs: the patch tool.
pub mod Parse
pub mod Printing
pub mod RoundTrip
pub mod Hunks
pub mod Splicing
pub mod Applying
pub mod Lines
pub mod Replace
pub mod Tool
pub mod Ops
pub mod Files
pub mod Replacing
pub mod Report
