-- ===== src/Scan/Laws.antt =====
-- The laws of the layer-1 scanner of deterministic.rs.
pub mod Slices
pub mod Loops
pub mod Runs
pub mod Sound
pub mod Numeric
pub mod Vat
pub mod Email
pub mod Iban
pub mod Detect
