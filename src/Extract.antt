-- ===== src/Extract.antt =====
-- gateway/crates/sentin-extract: the texts in attachments.
pub mod Utf8
pub mod Sync
pub mod Runs
pub mod Office
pub mod Document
pub mod Laws
pub mod Budget
