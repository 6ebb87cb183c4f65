-- ===== src/Tests/ReportTests.antt =====
-- A file with a finding, a blank line and a line that is no event.
use sentin_npu.Config.{starts_with}
use sentin_npu.Config
use sentin_npu.Core.Device
use sentin_npu.Editor.File
use sentin_npu.Extract.Office
use sentin_npu.Report
use sentin_npu.Report.{Line, Report, from_jsonl, lines_of, esc}
use sentin_npu.Report.Laws.{
  IsCounted, not_blank, IsHarmless, from_jsonl-IsCounted, esc-All-IsHarmless,
}
use sentin_npu.Prelude.{ℕ, ◌≡◌, refl, [], ◌∷◌, Option, none, some, if◌then◌else◌, All, Bytes, codes}

abbrev finding : Line
finding = record {
  ts = codes "2026-09-01T10:00:00Z";
  event = codes "pii_detected";
  detector = some (codes "pesel");
  decision = some (codes "blocked");
  device = none;
  upstream_model = none;
  provider = none;
  client_addr = none;
  source = none;
  attachment_kind = none;
  attachment_sha256 = none;
}

abbrev read_line : Bytes → Option Line
read_line s = if starts_with s (codes "{") then some finding else none

abbrev file : Bytes
file = codes "{}\r\n\n{}\nbroken"

abbrev counts : Report → ℕ × ℕ × ℕ
counts r = (r.events, r.malformed, r.blocked)

counted : counts (from_jsonl read_line file) ≡ (2, 1, 2)
unfolding Config.starts_with Device.is_char_boundary File.split_lines Office.is_blank Report.count
    Report.finished_lines Report.lines_of Report.add_lines Report.from_jsonl
counted = refl

last_line : lines_of (codes "a\r\n\nb\r") ≡ codes "a" ∷ [] ∷ codes "b\r" ∷ []
unfolding File.split_lines Report.finished_lines Report.lines_of
last_line = refl

from_jsonl-IsCounted_example : IsCounted (not_blank (lines_of file)) (from_jsonl read_line file)
from_jsonl-IsCounted_example = from_jsonl-IsCounted read_line file

esc-All-IsHarmless_example : All IsHarmless (esc (codes "<b a='1'>&"))
esc-All-IsHarmless_example = esc-All-IsHarmless (codes "<b a='1'>&")
