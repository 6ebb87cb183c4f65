-- ===== src/Core/Finding.antt =====
-- `Finding` of gateway/crates/sentin-core/src/lib.rs.
use sentin_npu.Prelude.{ℕ}
use sentin_npu.Core.Decision
use sentin_npu.Core.Decision.{Decision}
use sentin_npu.Core.DataKind.{DataKind}
use sentin_npu.Core.Layer
use sentin_npu.Core.Layer.{Layer}
use sentin_npu.Core.Validation
use sentin_npu.Core.Validation.{Validation}

-- `std::ops::Range<usize>`
pub record Range : Type 0 where
  pub start : ℕ
  pub end : ℕ

-- A single detection. `confidence` counts hundredths: the code only stores literals with one
-- decimal place and never computes with them.
pub record Finding : Type 0 where
  pub span : Range
  pub kind : DataKind
  pub confidence : ℕ
  pub layer : Layer
  pub validation : Validation

-- The strongest decision this finding may justify: the stricter of layer and evidence.
unfoldable pub max_decision : Finding → Decision
unfolding Layer.max_decision Validation.max_decision Decision.min
max_decision f = Decision.min (Layer.max_decision f.layer) (Validation.max_decision f.validation)

-- Clamp a proposed decision to what this finding may justify.
unfoldable pub clamp_decision : Finding → Decision → Decision
unfolding max_decision
clamp_decision f proposed = Decision.min proposed (max_decision f)
