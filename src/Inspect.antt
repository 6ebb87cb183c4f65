-- ===== src/Inspect.antt =====
-- gateway/crates/sentin-proxy/src/inspect.rs, except for `mask_spans`, which Mask.antt models:
-- the records (Types), the pipeline (Pipeline), and its theorems (Strongest, Laws, Total).
pub mod Types
pub mod Pipeline
pub mod Strongest
pub mod Consistent
pub mod Laws
pub mod Total
