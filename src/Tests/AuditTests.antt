-- ===== src/Tests/AuditTests.antt =====
-- CEF lines of two events.
use sentin_npu.Audit.Cef
use sentin_npu.Audit.Cef.{
  extensions, join, number, product, render, signature, vendor, escape_value,
}
use sentin_npu.Audit.Cef.Line.{IsInline, render-IsInline}
use sentin_npu.Audit.Cef.Reading.{
  read_fields, read_fields-render, unescape_value, unescape_value-escape_value, without_returns,
}
use sentin_npu.Audit.Event
use sentin_npu.Audit.Event.{pii_detected, gateway_start, new, base_severity}
use sentin_npu.Prelude.{◌≡◌, refl, [], ◌∷◌, ◌++◌, some, false, arith, Bytes, codes}
use sentin_npu.TestData
use sentin_npu.TestData.{decimal}

abbrev version : Bytes
version = codes "1.0|beta"

abbrev found : Event.Event
found = record (new (codes "2026-08-08T12:00:00Z") pii_detected) {
  detector = some (codes "pesel");
  detail = (codes "reason", codes "a=b" ++ (10 ∷ [])) ∷ [];
}

line_found :
    render found version
    ≡ codes
        "CEF:0|Sentin|Sentin-NPU|1.0\\|beta|pii_detected|pii_detected|5|rt=2026-08-08T12:00:00Z cs1Label=detector cs1=pesel reason=a\\=b\\n"
unfolding Cef.render Cef.extensions Cef.escape_header Cef.escape_value Cef.replace
    Event.base_severity TestData.decimal
line_found = refl

read_fields-render_example :
    read_fields 7 (render found version)
    ≡ some (
      codes "CEF:0"
          ∷ vendor
          ∷ product
          ∷ version
          ∷ signature pii_detected
          ∷ signature pii_detected
          ∷ number (base_severity pii_detected)
          ∷ [],
      join (extensions found),
    )
read_fields-render_example = read_fields-render found version

render-IsInline_example : IsInline (render found version)
render-IsInline_example = render-IsInline found version (ground arith) (ground arith)

unescape_value-escape_value_example :
    unescape_value false (escape_value (codes "a=b")) ≡ without_returns (codes "a=b")
unescape_value-escape_value_example = unescape_value-escape_value (codes "a=b")
