-- ===== src/Tests/EditorTests.antt =====
-- A small configuration with comments, edited.
use sentin_npu.Audit.Cef
use sentin_npu.Config
use sentin_npu.Config.{default_audit}
use sentin_npu.Core.DataKind
use sentin_npu.Core.DataKind.{pesel, email}
use sentin_npu.Core.Decision
use sentin_npu.Core.Decision.{masked, blocked}
use sentin_npu.Editor.File
use sentin_npu.Editor.File.{Parsed, Yaml, PolicyError, split_lines, text_of, set_scalar}
use sentin_npu.Editor.Lines
use sentin_npu.Editor.OneLine.{detector_mode, done, says, may, IsEdit, done-IsEdit}
use sentin_npu.Editor.Operations
use sentin_npu.Trim
use sentin_npu.Editor.Operations.{set_detector_mode, other_mode}
use sentin_npu.Prelude.{
  ◌≡◌, refl, inr, List, [], ◌∷◌, none, some, Bytes, codes, is_ascii_digit, is_ascii_uppercase,
  is_ascii_lowercase, is_ascii_alphabetic, is_ascii_alphanumeric, to_ascii_uppercase,
  to_ascii_lowercase,
}
use sentin_npu.Tests.Samples.{config_with}

-- A parser that takes every text for the sample, in which the PESEL is masked.
abbrev yaml : Yaml
yaml text = inr (record { config = config_with masked; audit = default_audit })

abbrev file : List Bytes
file =
    codes "# keep"
    ∷ codes "detectors:"
    ∷ codes "  pesel:   { layer: deterministic, mode: block } # ours"
    ∷ codes "audit:"
    ∷ codes "  jsonl:"
    ∷ codes "    enabled: true   # note"
    ∷ []

masked_in_place : set_detector_mode yaml file pesel masked ≡ (
  codes "# keep"
      ∷ codes "detectors:"
      ∷ codes "  pesel:   { layer: deterministic, mode: mask } # ours"
      ∷ codes "audit:"
      ∷ codes "  jsonl:"
      ∷ codes "    enabled: true   # note"
      ∷ [],
  none,
)
unfolding is_ascii_digit is_ascii_uppercase is_ascii_lowercase is_ascii_alphabetic
    is_ascii_alphanumeric to_ascii_uppercase to_ascii_lowercase Decision.min Decision.max
    DataKind.layer DataKind.evidence DataKind.max_decision DataKind.eq Config.is_enabled
    Config.detector_key Config.get Config.mode_for Config.starts_with Config.find_provider
    Config.provider_for Trim.trim_by Lines.index_of Lines.position Lines.line_key Lines.mode_span
    Lines.parse_mode Lines.replace_mode Lines.comment_at Lines.comment_tail Lines.looks_absolute
    Lines.quote_yaml File.split_lines File.text_of File.find_line File.find_last_line File.block_in
    File.block File.line_in File.detector_mode File.set_at File.insert_at File.spaces File.new_line
    File.insert_detector File.edit_detector File.set_scalar Operations.from_text Operations.got
    Operations.set_detector_mode Operations.set_audit_enabled Operations.set_audit_path
    Operations.set_syslog_enabled Operations.set_syslog_address Cef.replace
masked_in_place = refl

-- When the file reads back as something else, the edit fails and its line stays.
half_applied : set_detector_mode yaml file pesel Decision.observed ≡ (
  codes "# keep"
      ∷ codes "detectors:"
      ∷ codes "  pesel:   { layer: deterministic, mode: observe } # ours"
      ∷ codes "audit:"
      ∷ codes "  jsonl:"
      ∷ codes "    enabled: true   # note"
      ∷ [],
  some (
      PolicyError.not_applied (
        other_mode pesel Decision.observed
          (record { config = config_with masked; audit = default_audit }))),
)
unfolding is_ascii_digit is_ascii_uppercase is_ascii_lowercase is_ascii_alphabetic
    is_ascii_alphanumeric to_ascii_uppercase to_ascii_lowercase Decision.min Decision.max
    DataKind.layer DataKind.evidence DataKind.max_decision DataKind.eq Config.is_enabled
    Config.detector_key Config.get Config.mode_for Config.starts_with Config.find_provider
    Config.provider_for Trim.trim_by Lines.index_of Lines.position Lines.line_key Lines.mode_span
    Lines.parse_mode Lines.replace_mode Lines.comment_at Lines.comment_tail Lines.looks_absolute
    Lines.quote_yaml File.split_lines File.text_of File.find_line File.find_last_line File.block_in
    File.block File.line_in File.detector_mode File.set_at File.insert_at File.spaces File.new_line
    File.insert_detector File.edit_detector File.set_scalar Operations.from_text Operations.got
    Operations.set_detector_mode Operations.set_audit_enabled Operations.set_audit_path
    Operations.set_syslog_enabled Operations.set_syslog_address Cef.replace
half_applied = refl

noted :
    (set_scalar file (codes "audit" ∷ codes "jsonl" ∷ []) (codes "enabled") (codes "false")).0
    ≡ codes "# keep"
      ∷ codes "detectors:"
      ∷ codes "  pesel:   { layer: deterministic, mode: block } # ours"
      ∷ codes "audit:"
      ∷ codes "  jsonl:"
      ∷ codes "    enabled: false   # note"
      ∷ []
unfolding is_ascii_digit is_ascii_uppercase is_ascii_lowercase is_ascii_alphabetic
    is_ascii_alphanumeric to_ascii_uppercase to_ascii_lowercase Decision.min Decision.max
    DataKind.layer DataKind.evidence DataKind.max_decision DataKind.eq Config.is_enabled
    Config.detector_key Config.get Config.mode_for Config.starts_with Config.find_provider
    Config.provider_for Trim.trim_by Lines.index_of Lines.position Lines.line_key Lines.mode_span
    Lines.parse_mode Lines.replace_mode Lines.comment_at Lines.comment_tail Lines.looks_absolute
    Lines.quote_yaml File.split_lines File.text_of File.find_line File.find_last_line File.block_in
    File.block File.line_in File.detector_mode File.set_at File.insert_at File.spaces File.new_line
    File.insert_detector File.edit_detector File.set_scalar Operations.from_text Operations.got
    Operations.set_detector_mode Operations.set_audit_enabled Operations.set_audit_path
    Operations.set_syslog_enabled Operations.set_syslog_address Cef.replace
noted = refl

done-IsEdit_example :
    IsEdit yaml file
      (says (detector_mode pesel masked))
      (may (detector_mode pesel masked))
      (done yaml file (detector_mode pesel masked))
done-IsEdit_example = done-IsEdit yaml file (detector_mode pesel masked)
