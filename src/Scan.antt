-- ===== src/Scan.antt =====
-- gateway/crates/sentin-detect/src/deterministic.rs: layer 1, a single pass over the bytes of a
-- text. The scanners for each shape are children; the laws stand in the children of `Laws`.
pub mod Cursor
pub mod Digits
pub mod Numeric
pub mod Vat
pub mod Email
pub mod Iban
pub mod Detect
pub mod Laws
