-- ===== src/Core/Validation.antt =====
-- `Validation` of gateway/crates/sentin-core/src/lib.rs.
use sentin_npu.Core.Decision.{Decision, masked, blocked}

-- How strongly a finding is evidenced.
pub data Validation : Type 0 where
  checksum pattern_only : Validation

-- The strongest decision this level of evidence may produce.
unfoldable pub max_decision : Validation → Decision
max_decision checksum = blocked
max_decision pattern_only = masked
