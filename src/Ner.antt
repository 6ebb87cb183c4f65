-- ===== src/Ner.antt =====
-- Layer 2 of gateway/crates/sentin-detect/src/ner.rs: how the scores of the model become findings.
pub mod Decode
pub mod Complete
pub mod Laws
