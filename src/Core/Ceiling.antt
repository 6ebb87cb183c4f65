-- ===== src/Core/Ceiling.antt =====
-- The advisory-first rule of gateway/crates/sentin-core/src/lib.rs: who may block, and how a
-- proposed decision is clamped.
use sentin_npu.Prelude.{ℕ, ◌+◌, ◌≤◌, ◌≡◌, ◌↔◌, List, [], ◌∷◌, if◌then◌else◌, refl, arith}
use sentin_npu.Core.Decision.{Decision, blocked, rank}
use sentin_npu.Core.Layer.{deterministic}
use sentin_npu.Core.Validation.{checksum}
use sentin_npu.Core.DataKind
use sentin_npu.Core.DataKind.{DataKind, all_kinds}
use sentin_npu.Core.Finding
use sentin_npu.Core.Finding.{Finding}

-- A clamped decision is never above the proposal nor above the finding's ceiling.
pub clamp_decision-le :
    (f : Finding) (d : Decision)
    → (rank (Finding.clamp_decision f d) ≤ rank d)
      × (rank (Finding.clamp_decision f d) ≤ rank (Finding.max_decision f))
unfolding Finding.clamp_decision
clamp_decision-le f d = ground arith

-- A clamped decision blocks exactly when blocking was proposed for a finding of the deterministic
-- layer with checksum evidence.
pub clamp_decision-blocked_iff :
    (f : Finding) (d : Decision)
    → (Finding.clamp_decision f d ≡ blocked)
      ↔ ((d ≡ blocked) × (f.layer ≡ deterministic) × (f.validation ≡ checksum))
unfolding Finding.clamp_decision
clamp_decision-blocked_iff f d = (λ h. ground arith, λ h. ground arith)

-- A finding of a kind as the detectors make it: found by the kind's layer, on the kind's evidence.
abbrev pub IsDeclared : Finding → Type 0
IsDeclared f = (f.layer ≡ DataKind.layer f.kind) × (f.validation ≡ DataKind.evidence f.kind)

-- The ceiling that a kind declares is what a proposal to block a finding of that kind is clamped
-- to, and it is `blocked` exactly for a deterministic kind with checksum evidence.
pub max_decision-eq-clamp_decision :
    (f : Finding)
    → IsDeclared f
    → (DataKind.max_decision f.kind ≡ Finding.clamp_decision f blocked)
      × ((DataKind.max_decision f.kind ≡ blocked)
          ↔ ((DataKind.layer f.kind ≡ deterministic) × (DataKind.evidence f.kind ≡ checksum)))
unfolding Finding.clamp_decision DataKind.max_decision
max_decision-eq-clamp_decision f h = (ground arith, (λ e. ground arith, λ e. ground arith))

-- How often a kind stands in a list.
pub occurrences : DataKind → List DataKind → ℕ
occurrences k [] = 0
occurrences k (x ∷ xs) = (if DataKind.eq k x then 1 else 0) + occurrences k xs

-- `ALL` holds every kind exactly once.
pub occurrences-all_kinds : (k : DataKind) → occurrences k all_kinds ≡ 1
unfolding occurrences DataKind.eq
occurrences-all_kinds DataKind.pesel = refl
occurrences-all_kinds _ = refl
