-- ===== src/Files.antt =====
-- The policy of the file tools on paths.
pub mod Policy
pub mod Refusals
pub mod Glob
pub mod Matching
pub mod Globbing
pub mod Walk
pub mod Names
pub mod Search
pub mod Searching
pub mod Sorting
pub mod Paging
pub mod Ripgrep
pub mod Context
pub mod SearchTool
