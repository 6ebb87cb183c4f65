-- ===== src/Tests/CoreTests.antt =====
-- The rules of sentin-core and the configuration, on concrete values.
use sentin_npu.Core.Ceiling.{clamp_decision-blocked_iff}
use sentin_npu.Core.DataKind.{pesel}
use sentin_npu.Core.Decision.{blocked}
use sentin_npu.Config
use sentin_npu.Trim
use sentin_npu.Core.Device
use sentin_npu.Core.Device.{returns, panics}
use sentin_npu.Core.Finding
use sentin_npu.Core.Finding.{Finding}
use sentin_npu.Core.Layer.{deterministic}
use sentin_npu.Core.Naming.{parse_name-panics}
use sentin_npu.Core.Validation.{checksum}
use sentin_npu.Prelude.{◌≡◌, ◌↔◌, refl, [], ◌∷◌, some, codes, to_ascii_lowercase}

abbrev pesel_finding : Finding
pesel_finding = record {
  span = record { start = 0; end = 11 };
  kind = pesel;
  confidence = 100;
  layer = deterministic;
  validation = checksum;
}

clamp_decision-blocked_iff_example :
    (Finding.clamp_decision pesel_finding blocked ≡ blocked)
    ↔ ((blocked ≡ blocked) × (deterministic ≡ deterministic) × (checksum ≡ checksum))
clamp_decision-blocked_iff_example = clamp_decision-blocked_iff pesel_finding blocked

-- OpenVINO's enumerated names.
parse_gpu : Device.parse_name (codes " gpu.0") ≡ returns (some Device.gpu)
unfolding Device.parse_name Trim.trim_by Config.starts_with Device.parse_prefixes
    Device.is_char_boundary Device.eq_ignore_ascii_case to_ascii_lowercase
parse_gpu = refl

-- White space that is not ASCII is trimmed too.
parse_cpu : Device.parse_name (194 ∷ 160 ∷ 194 ∷ 160 ∷ codes "CPU") ≡ returns (some Device.cpu)
unfolding Device.parse_name Trim.trim_by Config.starts_with Device.parse_prefixes
    Device.is_char_boundary Device.eq_ignore_ascii_case to_ascii_lowercase
parse_cpu = refl

-- "CPÜ0" in UTF-8: the fourth byte is the second one of its third character.
parse_name-panics_example : Device.parse_name (67 ∷ 80 ∷ 195 ∷ 156 ∷ 48 ∷ []) ≡ panics
unfolding Trim.trim_by Config.starts_with
parse_name-panics_example = parse_name-panics (67 ∷ 80 ∷ 195 ∷ 156 ∷ 48 ∷ []) refl
