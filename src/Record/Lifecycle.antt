-- ===== src/Record/Lifecycle.antt =====
-- The events of audit_sink.rs that no request causes.
use sentin_npu.Audit.Cef.{number}
use sentin_npu.Audit.Event
use sentin_npu.Audit.Event.{Event, gateway_start, device_fallback}
use sentin_npu.Config.{Config}
use sentin_npu.Prelude.{◌∷◌, ◌++◌, Option, none, some, Bytes, codes, length}
use sentin_npu.Record.{with_detail}

abbrev pub with_device_detail : Option Bytes → Event → Event
with_device_detail none event = event
with_device_detail (some device) event = with_detail (codes "device") device event

unfoldable pub record_start : Bytes → Config → Bytes → Option Bytes → Event
record_start now config version device = with_device_detail device (
    with_detail (codes "providers") (number (length config.providers)) (
      with_detail (codes "listen") (config.listen.host ++ (b':' ∷ number config.listen.port))
        (with_detail (codes "version") version (Event.new now gateway_start))))

unfoldable pub record_device_fallback : Bytes → Bytes → Bytes → Event
record_device_fallback now requested actual =
    with_detail (codes "actual") actual
      (with_detail (codes "requested") requested (Event.new now device_fallback))
