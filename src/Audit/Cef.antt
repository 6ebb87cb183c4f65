-- ===== src/Audit/Cef.antt =====
-- gateway/crates/sentin-audit/src/cef.rs: an event as a line of CEF.
pub mod Reading
pub mod Line
use sentin_npu.Audit.Event.{
  EventKind, pii_detected, decision_made, inspection_timeout, device_fallback, attachment_skipped,
  gateway_start, gateway_stop, base_severity, Source, prompt, attachment, Event,
}
use sentin_npu.Core.DataKind.{
  DataKind, pesel, nip, vat_eu, regon, iban, payment_card, email, phone_pl, person, organization,
  location,
}
use sentin_npu.Core.Decision.{Decision, observed, advised, masked, blocked}
use sentin_npu.Core.Device.{Device, npu, gpu, cpu, auto}
use sentin_npu.Prelude.{
  ℕ, suc, ◌+◌, List, [], ◌∷◌, ◌++◌, map, Option, none, some, ◌==◌, if◌then◌else◌, Bytes, codes,
}
use sentin_npu.TestData.{decimal}

-- `str::replace` of one ASCII character.
unfoldable pub replace : ℕ → Bytes → Bytes → Bytes
replace c new [] = []
replace c new (b ∷ s) = if b == c then new ++ replace c new s else b ∷ replace c new s

-- Header fields escape `\` and `|`.
unfoldable pub escape_header : Bytes → Bytes
unfolding replace
escape_header value = replace b'|' (b'\\' ∷ b'|' ∷ []) (replace b'\\' (b'\\' ∷ b'\\' ∷ []) value)

-- Extension values escape `\`, `=` and newlines, and drop carriage returns.
unfoldable pub escape_value : Bytes → Bytes
unfolding replace
escape_value value = replace 13 [] (
    replace 10 (b'\\' ∷ b'n' ∷ [])
      (replace b'=' (b'\\' ∷ b'=' ∷ []) (replace b'\\' (b'\\' ∷ b'\\' ∷ []) value)))

abbrev pub signature : EventKind → Bytes
signature pii_detected = codes "pii_detected"
signature decision_made = codes "decision_made"
signature inspection_timeout = codes "inspection_timeout"
signature device_fallback = codes "device_fallback"
signature attachment_skipped = codes "attachment_skipped"
signature gateway_start = codes "gateway_start"
signature gateway_stop = codes "gateway_stop"

-- The `Debug` names, in capitals or in small letters as the code turns them.
abbrev pub data_type_name : DataKind → Bytes
data_type_name pesel = codes "PESEL"
data_type_name nip = codes "NIP"
data_type_name vat_eu = codes "VATEU"
data_type_name regon = codes "REGON"
data_type_name iban = codes "IBAN"
data_type_name payment_card = codes "PAYMENTCARD"
data_type_name email = codes "EMAIL"
data_type_name phone_pl = codes "PHONEPL"
data_type_name person = codes "PERSON"
data_type_name organization = codes "ORGANIZATION"
data_type_name location = codes "LOCATION"

abbrev pub decision_name : Decision → Bytes
decision_name observed = codes "observed"
decision_name advised = codes "advised"
decision_name masked = codes "masked"
decision_name blocked = codes "blocked"

abbrev pub device_name : Device → Bytes
device_name npu = codes "NPU"
device_name gpu = codes "GPU"
device_name cpu = codes "CPU"
device_name auto = codes "AUTO"

abbrev pub source_name : Source → Bytes
source_name prompt = codes "prompt"
source_name attachment = codes "attachment"

-- `to_string` of a number.
abbrev pub number : ℕ → Bytes
number n = map (λ d. b'0' + d) (decimal (suc n) n)

-- `if let Some(v) = field { push(key, v) }`
abbrev pub push {ℓ} : {A : Type ℓ} → Bytes → (A → Bytes) → Option A → List (Bytes × Bytes)
push key text none = []
push key text (some v) = (key, text v) ∷ []

-- The same, with the custom field's label in front.
abbrev pub push_labelled {ℓ} :
    {A : Type ℓ} → Bytes → Bytes → Bytes → (A → Bytes) → Option A → List (Bytes × Bytes)
push_labelled label name key text none = []
push_labelled label name key text (some v) = (label, name) ∷ (key, text v) ∷ []

abbrev itself : Bytes → Bytes
itself v = v

-- The extensions in the order in which they are pushed, their values not yet escaped.
unfoldable pub extensions : Event → List (Bytes × Bytes)
extensions e =
    (codes "rt", e.ts)
    ∷ (push_labelled (codes "cs1Label") (codes "detector") (codes "cs1") itself e.detector
        ++ (push_labelled (codes "cs2Label") (codes "dataType") (codes "cs2") data_type_name
              e.data_type
            ++ (push (codes "dhost") itself e.target_host
                ++ (push (codes "act") decision_name e.decision
                    ++ (push (codes "fileHash") itself e.content_sha256
                        ++ (push_labelled (codes "cs3Label") (codes "modelId") (codes "cs3") itself
                              e.model_id
                            ++ (push_labelled (codes "cs4Label") (codes "device") (codes "cs4")
                                  device_name e.device
                                ++ (push (codes "src") itself e.client_addr
                                    ++ (push_labelled (codes "cs5Label") (codes "upstreamModel")
                                          (codes "cs5") itself e.upstream_model
                                        ++ (push_labelled (codes "cs6Label") (codes "provider")
                                              (codes "cs6") itself e.provider
                                            ++ (push (codes "cat") source_name e.source
                                                ++ (push (codes "fileType") itself e.attachment_kind
                                                    ++ (push (codes "fileHash") itself
                                                          e.attachment_sha256
                                                        ++ (push (codes "fsize") number
                                                            e.attachment_bytes
                                                            ++ e.detail))))))))))))))

-- `format!("{key}={}", escape_value(value))`
abbrev pub extension : Bytes × Bytes → Bytes
extension (key, value) = key ++ (b'=' ∷ escape_value value)

-- `join(" ")`
abbrev pub join : List (Bytes × Bytes) → Bytes
join [] = []
join (x ∷ []) = extension x
join (x ∷ y ∷ rest) = extension x ++ (b' ' ∷ join (y ∷ rest))

abbrev pub field : Bytes → Bytes → Bytes
field value rest = escape_header value ++ (b'|' ∷ rest)

abbrev pub vendor : Bytes
vendor = codes "Sentin"

abbrev pub product : Bytes
product = codes "Sentin-NPU"

-- `render`
unfoldable pub render : Event → Bytes → Bytes
unfolding base_severity extensions
render event product_version =
    codes "CEF:0|"
    ++ field vendor (
        field product (
          field product_version (
            field (signature event.event) (
              field (signature event.event)
                (number (base_severity event.event) ++ (b'|' ∷ join (extensions event)))))))
