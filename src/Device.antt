-- ===== src/Device.antt =====
-- Which device runs the model: gateway/crates/sentin-detect/src/select.rs and the names in ov.rs.
pub mod Select
pub mod Resolve
pub mod Order
pub mod Best
pub mod Present
