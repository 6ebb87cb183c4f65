-- ===== src/Record.antt =====
-- `record_request` of gateway/crates/sentin-proxy/src/audit_sink.rs: the audit events that one
-- inspected request is worth, in the order in which they are emitted. The time stamp, the digest of
-- the payload and Rust's `Debug` text of a `Skipped` are arguments.
pub mod Laws
pub mod Clock
pub mod Lifecycle
use sentin_npu.Audit.Cef.{number}
use sentin_npu.Audit.Event
use sentin_npu.Audit.Event.{
  Event, EventKind, pii_detected, decision_made, attachment_skipped, inspection_timeout, attachment,
}
use sentin_npu.Config.{detector_key, text_eq}
use sentin_npu.Core.Device
use sentin_npu.Core.Device.{Device, Outcome, returns, panics, parse_name}
use sentin_npu.Inspect.Types.{AttachmentInfo, FindingSummary, UnreadAttachment, Skipped, Inspection}
use sentin_npu.Prelude.{
  Bool, true, false, ◌&&◌, List, [], ◌∷◌, ◌++◌, map, Option, none, some, ltb, ◌==◌, if◌then◌else◌,
  is_empty, length, Bytes, codes,
}

-- Everything about a request that an audit event may record.
pub record RequestContext : Type 0 where
  pub target_host : Bytes
  pub model_id : Option Bytes
  pub device : Option Bytes
  pub client_addr : Option Bytes
  pub upstream_model : Option Bytes
  pub provider : Bytes

abbrev pub text_lt : Bytes → Bytes → Bool
text_lt s [] = false
text_lt [] (b ∷ t) = true
text_lt (a ∷ s) (b ∷ t) = if a == b then text_lt s t else ltb a b

-- `BTreeMap::insert`
abbrev pub insert : Bytes → Bytes → List (Bytes × Bytes) → List (Bytes × Bytes)
insert key value [] = (key, value) ∷ []
insert key value ((k, v) ∷ m) =
    if text_eq key k
    then (key, value) ∷ m
    else if text_lt key k
    then (key, value) ∷ (k, v) ∷ m
    else (k, v) ∷ insert key value m

-- `Event::detail`
abbrev pub with_detail : Bytes → Bytes → Event → Event
with_detail key value e = record e { detail = insert key value e.detail }

-- `Event::attachment`
abbrev pub with_attachment : Bytes → AttachmentInfo → Event → Event
with_attachment kind info e = record e {
  attachment_kind = some kind;
  attachment_bytes = some info.bytes;
  attachment_sha256 = some info.sha256;
}

abbrev pub attachment_of : Option AttachmentInfo → Event → Event
attachment_of none e = e
attachment_of (some info) e = with_attachment info.kind info e

-- What is set for the caller and the model asked for.
abbrev pub with_caller : RequestContext → Event → Event
with_caller context e = record e {
  client_addr = context.client_addr;
  upstream_model = context.upstream_model;
}

-- A device that is recognised goes into its field, another into the details.
abbrev pub with_parsed : Bytes → Event → Outcome (Option Device) → Outcome Event
with_parsed device e panics = panics
with_parsed device e (returns none) = returns (with_detail (codes "device") device e)
with_parsed device e (returns (some parsed)) = returns (record e { device = some parsed })

unfoldable pub with_device : Option Bytes → Event → Outcome Event
with_device none e = returns e
with_device (some device) e = with_parsed device e (parse_name device)

abbrev pub emit_before : Outcome Event → Outcome (List Event) → Outcome (List Event)
emit_before panics es = panics
emit_before (returns e) panics = panics
emit_before (returns e) (returns es) = returns (e ∷ es)

abbrev pub is_none : Option Skipped → Bool
is_none none = true
is_none (some reason) = false

-- Nothing was found, nothing skipped, nothing left unread.
abbrev pub nothing_to_report : {Value : Type 0} → Inspection Value → Bool
nothing_to_report verdict =
    is_empty verdict.findings
    && (is_none verdict.ner_skipped && is_empty verdict.unread_attachments)

module _ (ts hash : Bytes) (debug : Skipped → Bytes) (context : RequestContext) where
  -- The event of one finding, its device left aside.
  unfoldable pub detection : FindingSummary → Event
  detection f = with_caller context (
      attachment_of f.attachment (record (Event.new ts pii_detected) {
        detector = some (detector_key f.kind);
        data_type = some f.kind;
        target_host = some context.target_host;
        decision = some f.decision;
        content_sha256 = some hash;
        provider = some context.provider;
        source = some f.source;
        model_id = context.model_id;
      }))

  -- The loop over the findings; what follows it is emitted behind.
  unfoldable pub detections : List FindingSummary → List Event → Outcome (List Event)
  detections [] rest = returns rest
  detections (f ∷ fs) rest =
      emit_before (with_device context.device (detection f)) (detections fs rest)

  -- The summary event, unless there is no finding.
  unfoldable pub summary : {Value : Type 0} → Inspection Value → List Event
  summary verdict =
      if is_empty verdict.findings
      then []
      else with_caller context (
          with_detail (codes "findings") (number (length verdict.findings))
            (record (Event.new ts decision_made) {
              target_host = some context.target_host;
              decision = some verdict.decision;
              content_sha256 = some hash;
              provider = some context.provider;
            }))
        ∷ []

  -- `if let (Some(kind), Some(sha256))`
  abbrev pub identified : UnreadAttachment → Option Bytes → Option Bytes → Event → Event
  identified u (some kind) (some sha256) e =
      with_attachment kind (record { kind = kind; bytes = u.bytes; sha256 = sha256 }) e
  identified u _ _ e = e

  unfoldable pub skipped : UnreadAttachment → Event
  skipped u = with_caller context (
      identified u u.kind u.sha256 (
        with_detail (codes "reason") u.reason (record (Event.new ts attachment_skipped) {
          target_host = some context.target_host;
          content_sha256 = some hash;
          provider = some context.provider;
          source = some attachment;
        })))

  unfoldable pub timeout : Option Skipped → List Event
  timeout none = []
  timeout (some reason) =
      with_detail (codes "layer") (codes "ner") (
        with_detail (codes "reason") (debug reason) (record (Event.new ts inspection_timeout) {
          target_host = some context.target_host;
          content_sha256 = some hash;
        }))
      ∷ []

  -- What is emitted behind the detections.
  unfoldable pub after_detections : {Value : Type 0} → Inspection Value → List Event
  unfolding summary skipped timeout
  after_detections verdict =
      summary verdict ++ (map skipped verdict.unread_attachments ++ timeout verdict.ner_skipped)

  -- `record_request`
  unfoldable pub record_request : {Value : Type 0} → Inspection Value → Outcome (List Event)
  unfolding detections after_detections
  record_request verdict =
      if nothing_to_report verdict
      then returns []
      else detections verdict.findings (after_detections verdict)
