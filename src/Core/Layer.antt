-- ===== src/Core/Layer.antt =====
-- `Layer` of gateway/crates/sentin-core/src/lib.rs.
use sentin_npu.Core.Decision.{Decision, masked, blocked}

-- Which detection layer produced a finding.
pub data Layer : Type 0 where
  deterministic ner policy : Layer

-- The strongest decision this layer may produce.
unfoldable pub max_decision : Layer → Decision
max_decision deterministic = blocked
max_decision ner = masked
max_decision policy = masked
