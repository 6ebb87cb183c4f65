-- ===== src/Audit/Event.antt =====
-- gateway/crates/sentin-audit/src/lib.rs: what an audit event holds. Texts are their bytes; the map
-- `detail` is the list of its entries in the order of their keys.
use sentin_npu.Core.DataKind.{DataKind}
use sentin_npu.Core.Decision.{Decision}
use sentin_npu.Core.Device.{Device}
use sentin_npu.Prelude.{ℕ, List, [], Option, none, Bytes}

pub data EventKind : Type 0 where
  pii_detected decision_made inspection_timeout device_fallback : EventKind
  attachment_skipped gateway_start gateway_stop : EventKind

unfoldable pub base_severity : EventKind → ℕ
base_severity pii_detected = 5
base_severity decision_made = 4
base_severity inspection_timeout = 7
base_severity device_fallback = 3
base_severity attachment_skipped = 6
base_severity gateway_start = 1
base_severity gateway_stop = 1

-- Where a finding was: the prompt, or a file attached to it.
pub data Source : Type 0 where
  prompt attachment : Source

pub record Event : Type 0 where
  pub ts : Bytes
  pub event : EventKind
  pub detector : Option Bytes
  pub data_type : Option DataKind
  pub target_host : Option Bytes
  pub decision : Option Decision
  pub content_sha256 : Option Bytes
  pub model_id : Option Bytes
  pub device : Option Device
  pub client_addr : Option Bytes
  pub upstream_model : Option Bytes
  pub provider : Option Bytes
  pub source : Option Source
  pub attachment_kind : Option Bytes
  pub attachment_bytes : Option ℕ
  pub attachment_sha256 : Option Bytes
  pub detail : List (Bytes × Bytes)

-- `Event::new`
abbrev pub new : Bytes → EventKind → Event
new ts event = record {
  ts = ts;
  event = event;
  detector = none;
  data_type = none;
  target_host = none;
  decision = none;
  content_sha256 = none;
  model_id = none;
  device = none;
  client_addr = none;
  upstream_model = none;
  provider = none;
  source = none;
  attachment_kind = none;
  attachment_bytes = none;
  attachment_sha256 = none;
  detail = [];
}
