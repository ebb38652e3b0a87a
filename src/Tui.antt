-- ===== src/Tui.antt =====
-- crates/hermes-cli/src/tui: the state of the terminal interface, its input box and its keys.
pub mod App
pub mod Boundary
pub mod Zipper
pub mod Keys
pub mod Editing
pub mod Cache
pub mod Layout
pub mod Rows
