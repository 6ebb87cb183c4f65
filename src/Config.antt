-- ===== src/Config.antt =====
-- gateway/crates/sentin-proxy/src/config.rs: the gateway's configuration. A `HashMap` is the list
-- of its entries in the order in which its iterator meets them, which Rust leaves open. Texts are
-- their bytes; `max_inference_ms` counts hundredths. Reading YAML is serde's part and left out.
pub mod Keys
use sentin_npu.Prelude.{
  ℕ, ◌*◌, Bool, true, false, ◌&&◌, not, List, [], ◌∷◌, Option, none, some, ◌==◌, if◌then◌else◌,
  is_empty, Bytes, codes,
}
use sentin_npu.Core.DataKind.{
  DataKind, pesel, nip, vat_eu, regon, iban, payment_card, email, phone_pl, person, organization,
  location,
}
use sentin_npu.Core.Decision.{Decision, observed}

pub record Listen : Type 0 where
  pub host : Bytes
  pub port : ℕ

-- `Provider`: one upstream and the path prefix that routes to it.
pub record Upstream : Type 0 where
  pub prefix : Bytes
  pub upstream : Bytes

pub data TimeoutPolicy : Type 0 where
  fail_open fail_closed : TimeoutPolicy

pub record Inference : Type 0 where
  pub device : Bytes
  pub model_dir : Bytes
  pub timeout_ms : ℕ
  pub timeout_policy : TimeoutPolicy
  pub select : Bytes
  pub max_inference_ms : ℕ

pub data StreamStrategy : Type 0 where
  passthrough buffer sliding_window : StreamStrategy

pub record Inspect : Type 0 where
  pub request : Bool
  pub response : Bool
  pub stream_strategy : StreamStrategy
  pub attachments : Bool
  pub max_attachment_bytes : ℕ

pub record DetectorRule : Type 0 where
  pub mode : Decision

pub record Config : Type 0 where
  pub listen : Listen
  pub providers : List (Bytes × Upstream)
  pub detectors : List (Bytes × DetectorRule)
  pub inspect : Inspect
  pub inference : Inference

-- The `Default` implementations.
abbrev pub default_listen : Listen
default_listen = record { host = codes "127.0.0.1"; port = 4141 }

abbrev pub default_inference : Inference
default_inference = record {
  device = codes "AUTO";
  model_dir = [];
  timeout_ms = 250;
  timeout_policy = fail_open;
  select = codes "cost";
  max_inference_ms = 8000;
}

abbrev pub default_inspect : Inspect
default_inspect = record {
  request = true;
  response = false;
  stream_strategy = passthrough;
  attachments = true;
  max_attachment_bytes = 10 * 1024 * 1024;
}

-- Where audit events go. It stands beside the other settings, which it has nothing to do with.
pub record JsonlSink : Type 0 where
  pub enabled : Bool
  pub path : Bytes

pub record SyslogSink : Type 0 where
  pub enabled : Bool
  pub address : Bytes

pub record OtlpSink : Type 0 where
  pub enabled : Bool
  pub endpoint : Bytes

pub record Audit : Type 0 where
  pub jsonl : JsonlSink
  pub syslog_cef : SyslogSink
  pub otlp : OtlpSink

abbrev pub default_audit : Audit
default_audit = record {
  jsonl = record { enabled = true; path = codes "./sentin-audit.jsonl" };
  syslog_cef = record { enabled = false; address = [] };
  otlp = record { enabled = false; endpoint = [] };
}

-- Layer 2 runs only when a model directory is configured.
unfoldable pub is_enabled : Inference → Bool
is_enabled i = not (is_empty i.model_dir)

-- The config key of a detector.
unfoldable pub detector_key : DataKind → Bytes
detector_key pesel = codes "pesel"
detector_key nip = codes "nip"
detector_key vat_eu = codes "vat_eu"
detector_key regon = codes "regon"
detector_key iban = codes "iban"
detector_key payment_card = codes "payment_card"
detector_key email = codes "email"
detector_key phone_pl = codes "phone_pl"
detector_key person = codes "person"
detector_key organization = codes "organization"
detector_key location = codes "location"

-- `==` of texts
abbrev pub text_eq : Bytes → Bytes → Bool
text_eq [] [] = true
text_eq (a ∷ s) (b ∷ t) = a == b && text_eq s t
text_eq _ _ = false

-- `HashMap::get`
unfoldable pub get : Bytes → List (Bytes × DetectorRule) → Option DetectorRule
get key [] = none
get key ((k, rule) ∷ m) = if text_eq k key then some rule else get key m

abbrev pub mode_or_observed : Option DetectorRule → Decision
mode_or_observed none = observed
mode_or_observed (some rule) = rule.mode

-- The action configured for a detector, `observed` for one that is not configured.
unfoldable pub mode_for : Config → DataKind → Decision
unfolding detector_key get
mode_for config kind = mode_or_observed (get (detector_key kind) config.detectors)

-- `str::starts_with`
unfoldable pub starts_with : Bytes → Bytes → Bool
starts_with text [] = true
starts_with [] (b ∷ prefix) = false
starts_with (a ∷ text) (b ∷ prefix) = a == b && starts_with text prefix

-- `find` over the entries.
unfoldable pub find_provider : Bytes → List (Bytes × Upstream) → Option (Bytes × Upstream)
unfolding starts_with
find_provider path [] = none
find_provider path ((name, provider) ∷ m) =
    if starts_with path provider.prefix then some (name, provider) else find_provider path m

-- The provider whose prefix matches this request path.
unfoldable pub provider_for : Config → Bytes → Option (Bytes × Upstream)
unfolding find_provider
provider_for config path = find_provider path config.providers
