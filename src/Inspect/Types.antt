-- ===== src/Inspect/Types.antt =====
-- The records of inspect.rs, and the services that the pipeline calls.
use sentin_npu.Audit.Event.{Source}
use sentin_npu.Core.DataKind.{DataKind}
use sentin_npu.Core.Decision.{Decision, observed}
use sentin_npu.Core.Finding.{Finding}
use sentin_npu.Json.{Pointer}
use sentin_npu.Prelude.{ℕ, Bool, List, [], Option, none, ◌⊎◌, Bytes}

-- What an attachment turned out to be.
pub record AttachmentInfo : Type 0 where
  pub kind : Bytes
  pub bytes : ℕ
  pub sha256 : Bytes

-- What inspection concluded about one finding.
pub record FindingSummary : Type 0 where
  pub kind : DataKind
  pub decision : Decision
  pub source : Source
  pub attachment : Option AttachmentInfo

-- An attachment that was present and could not be read.
pub record UnreadAttachment : Type 0 where
  pub reason : Bytes
  pub kind : Option Bytes
  pub bytes : ℕ
  pub sha256 : Option Bytes

-- `ner_service::Skipped`: why layer 2 did not contribute.
pub data Skipped : Type 0 where
  timed_out : Skipped
  unavailable : Bytes → Skipped

-- The result of inspecting one request, over the type of its body.
pub record Inspection (Value : Type 0) : Type 0 where
  pub decision : Decision
  pub findings : List FindingSummary
  pub masked_body : Option Value
  pub ner_skipped : Option Skipped
  pub unread_attachments : List UnreadAttachment

-- `Inspection::clean`
abbrev pub clean : {Value : Type 0} → Inspection Value
clean = record {
  decision = observed;
  findings = [];
  masked_body = none;
  ner_skipped = none;
  unread_attachments = [];
}

-- `NerService::inspect`: entities, or the reason why there are none. The answer depends on the
-- worker's load too; a request asks once for each pointer, which stands for the call here.
abbrev pub NerService : Type 0
NerService = Pointer → Bytes → Skipped ⊎ List Finding

-- `sentin_extract::Extracted`, its kind by name.
pub record Extracted : Type 0 where
  pub text : Bytes
  pub kind : Bytes
  pub input_bytes : ℕ
  pub truncated : Bool

-- What the pipeline calls of the crate sentin-extract and of `sentin_audit::digest`; an error is
-- its text, and the limit is `max_input_bytes`.
pub record Extractor : Type 0 where
  pub decode : Bytes → Bytes ⊎ Bytes
  pub sniff : Bytes → Bytes
  pub extract : Bytes → ℕ → Bytes ⊎ Extracted
  pub digest : Bytes → Bytes
