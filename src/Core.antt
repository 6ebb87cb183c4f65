-- ===== src/Core.antt =====
-- gateway/crates/sentin-core/src/lib.rs: the shared vocabulary of the pipeline, one child for each
-- type. `Ceiling` holds the laws of the advisory-first rule.
pub mod Decision
pub mod Layer
pub mod Validation
pub mod DataKind
pub mod Finding
pub mod Device
pub mod Ceiling
pub mod Naming
