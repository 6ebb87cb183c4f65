-- ===== src/Editor.antt =====
-- gateway/crates/sentin-ui/src/policy.rs: an installed configuration, edited line by line.
pub mod Lines
pub mod File
pub mod Operations
pub mod Laws
pub mod OneLine
