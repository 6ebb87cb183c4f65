-- ===== src/Audit.antt =====
-- gateway/crates/sentin-audit: the audit event (Event), its rendering for a SIEM (Cef), and the hash of
-- a payload (Digest).
pub mod Event
pub mod Cef
pub mod Digest
