-- ===== src/Tests/RecordTests.antt =====
-- The events of a request with a PESEL in its prompt, and of one that was clean.
use sentin_npu.Audit.Event.{Event, prompt}
use sentin_npu.Core.DataKind.{pesel}
use sentin_npu.Core.Decision.{masked}
use sentin_npu.Core.Device.{returns}
use sentin_npu.Inspect.Types.{Inspection, Skipped}
use sentin_npu.Prelude.{ℕ, ◌≡◌, List, [], ◌∷◌, map, none, some, arith, Bytes, codes}
use sentin_npu.Record.{RequestContext, record_request}
use sentin_npu.Record.Laws.{reports, reported, record_request-reports}

abbrev context : RequestContext
context = record {
  target_host = codes "api.example.com";
  model_id = none;
  device = some (codes "NPU.3720");
  client_addr = some (codes "10.0.0.7");
  upstream_model = none;
  provider = codes "openai";
}

abbrev debug : Skipped → Bytes
debug s = codes "TimedOut"

abbrev verdict : Inspection ℕ
verdict = record {
  decision = masked;
  findings = record { kind = pesel; decision = masked; source = prompt; attachment = none } ∷ [];
  masked_body = some 0;
  ner_skipped = none;
  unread_attachments = [];
}

record_request-reports_example :
    (es : List Event) × (record_request (codes "now") (codes "sha256:0") debug context verdict
      ≡ returns es)
    × (reports es ≡ map reported verdict.findings)
record_request-reports_example =
    record_request-reports (codes "now") (codes "sha256:0") debug context verdict (ground arith)
