-- ===== src/Inspect/Pipeline.antt =====
-- `inspect_request` of inspect.rs, each loop a function on the state that it changes.
use sentin_npu.Adapters.{Provider, Attachment, text_pointers, attachments, read_text, write_text}
use sentin_npu.Config.{Config, mode_for}
use sentin_npu.Core.Decision
use sentin_npu.Core.Decision.{Decision, observed, advised, masked, blocked}
use sentin_npu.Core.Device.{Outcome, returns, and_then}
use sentin_npu.Core.Finding
use sentin_npu.Core.Finding.{Finding}
use sentin_npu.Audit.Event.{prompt, attachment}
use sentin_npu.Inspect.Types.{
  AttachmentInfo, FindingSummary, UnreadAttachment, Skipped, Inspection, NerService, Extracted,
  Extractor,
}
use sentin_npu.Json.{Json, Pointer}
use sentin_npu.Mask.{Span, mask_spans}
use sentin_npu.Prelude.{
  ◌&&◌, not, List, [], ◌∷◌, ◌++◌, Option, none, some, ◌⊎◌, inl, inr, if◌then◌else◌, length,
  is_empty, Bytes, codes,
}
use sentin_npu.Scan.Detect.{detect}

-- The local variables of `inspect_request` that its loops change. A call of `mask_spans` that panics
-- is kept among the rewrites until the loops are over, where it ends the request: nothing else that
-- they compute depends on it.
pub record Progress : Type 0 where
  pub findings : List FindingSummary
  pub overall : Decision
  pub rewrites : List (Pointer × Outcome Bytes)
  pub ner_skipped : Option Skipped
  pub unread_attachments : List UnreadAttachment

abbrev pub start : Progress
start = record {
  findings = [];
  overall = observed;
  rewrites = [];
  ner_skipped = none;
  unread_attachments = [];
}

-- `ner_skipped.get_or_insert(reason)`
abbrev pub get_or_insert : Option Skipped → Skipped → Option Skipped
get_or_insert none reason = some reason
get_or_insert (some first) reason = some first

-- Layer 2's part in one text: the entities found, and the skip recorded.
abbrev pub answered : Option Skipped → Skipped ⊎ List Finding → List Finding × Option Skipped
answered skipped (inl reason) = ([], get_or_insert skipped reason)
answered skipped (inr entities) = (entities, skipped)

abbrev pub ask :
    Option NerService → Pointer → Bytes → Option Skipped → List Finding × Option Skipped
ask none pointer text skipped = ([], skipped)
ask (some service) pointer text skipped = answered skipped (service pointer text)

-- The two ceilings of a finding: what the operator asked for, and what the evidence supports.
unfoldable pub prompt_decision : Config → Finding → Decision
prompt_decision config f = Finding.clamp_decision f (mode_for config f.kind)

-- The third, in an attachment, which cannot be masked.
abbrev pub unmasked : Decision → Decision
unmasked masked = advised
unmasked other = other

unfoldable pub attachment_decision : Config → Finding → Decision
attachment_decision config f = unmasked (Finding.clamp_decision f (mode_for config f.kind))

abbrev pub prompt_summary : Config → Finding → FindingSummary
prompt_summary config f = record {
  kind = f.kind;
  decision = prompt_decision config f;
  source = prompt;
  attachment = none;
}

-- The loop over the findings of one text: each is summarised, and masked if its decision says so.
unfoldable pub prompt_loop : Config → List Finding → Progress × List Span → Progress × List Span
prompt_loop config [] st = st
prompt_loop config (f ∷ fs) (st, to_mask) =
    let decision = prompt_decision config f in
    prompt_loop config fs (
      record {
        findings = st.findings ++ prompt_summary config f ∷ [];
        overall = Decision.max st.overall decision;
        rewrites = st.rewrites;
        ner_skipped = st.ner_skipped;
        unread_attachments = st.unread_attachments;
      },
      if Decision.ge decision masked then to_mask ++ (f.span, f.kind) ∷ [] else to_mask,
    )

abbrev pub with_skip : Progress → Option Skipped → Progress
with_skip st skipped = record {
  findings = st.findings;
  overall = st.overall;
  rewrites = st.rewrites;
  ner_skipped = skipped;
  unread_attachments = st.unread_attachments;
}

-- `if !to_mask.is_empty() { rewrites.push(…) }`
abbrev pub with_rewrite : Pointer → Bytes → Progress × List Span → Progress
with_rewrite pointer text (st, to_mask) = if is_empty to_mask then st else record {
  findings = st.findings;
  overall = st.overall;
  rewrites = st.rewrites ++ (pointer, mask_spans text to_mask) ∷ [];
  ner_skipped = st.ner_skipped;
  unread_attachments = st.unread_attachments;
}

-- The rewrites once the loops are over: a panic in one is the panic of all.
unfoldable pub settled : List (Pointer × Outcome Bytes) → Outcome (List (Pointer × Bytes))
settled [] = returns []
settled ((pointer, rewritten) ∷ rest) =
    and_then rewritten (λ s. and_then (settled rest) (λ ss. returns ((pointer, s) ∷ ss)))

-- The rest of a round over one text, once the findings are there.
unfoldable pub detected_round : Config → Pointer → Bytes → List Finding → Progress → Progress
unfolding prompt_loop
detected_round config pointer text detected st =
    if is_empty detected
    then st
    else with_rewrite pointer text (prompt_loop config detected (st, []))

-- One text of the request: layer 1, layer 2, the decisions and the rewrite. A pointer that reads
-- as no text is passed over.
unfoldable pub text_round :
    Config → Option NerService → Pointer → Option Bytes → Progress → Progress
text_round config ner pointer none st = st
text_round config ner pointer (some text) st =
    let answer = ask ner pointer text st.ner_skipped in
    detected_round config pointer text (detect text ++ answer.0) (with_skip st answer.1)

-- `unread_attachments.push(…)`
abbrev pub with_unread : Progress → UnreadAttachment → Progress
with_unread st unread = record {
  findings = st.findings;
  overall = st.overall;
  rewrites = st.rewrites;
  ner_skipped = st.ner_skipped;
  unread_attachments = st.unread_attachments ++ unread ∷ [];
}

abbrev pub attachment_summary : Config → AttachmentInfo → Finding → FindingSummary
attachment_summary config info f = record {
  kind = f.kind;
  decision = attachment_decision config f;
  source = attachment;
  attachment = some info;
}

-- The loop over the findings of one attachment.
unfoldable pub attachment_loop : Config → AttachmentInfo → List Finding → Progress → Progress
attachment_loop config info [] st = st
attachment_loop config info (f ∷ fs) st = attachment_loop config info fs (record {
  findings = st.findings ++ attachment_summary config info f ∷ [];
  overall = Decision.max st.overall (attachment_decision config f);
  rewrites = st.rewrites;
  ner_skipped = st.ner_skipped;
  unread_attachments = st.unread_attachments;
})

abbrev pub truncation_reason : Bytes
truncation_reason = codes "attachment truncated at the text limit; findings are a lower bound"

-- What follows a successful extraction.
unfoldable pub extracted_round :
    Config → Option NerService → Pointer → Bytes → Extracted → Progress → Progress
extracted_round config ner pointer sha256 x st =
    let answer = ask ner pointer x.text st.ner_skipped in
    let info : AttachmentInfo = record { kind = x.kind; bytes = x.input_bytes; sha256 = sha256 } in
    let st = attachment_loop config info (detect x.text ++ answer.0) (with_skip st answer.1) in
    if x.truncated
    then with_unread st (record {
      reason = truncation_reason;
      kind = some x.kind;
      bytes = x.input_bytes;
      sha256 = some sha256;
    })
    else st

module _ (tools : Extractor) where
  abbrev pub unreadable : Bytes → Bytes → UnreadAttachment
  unreadable reason bytes = record {
    reason = reason;
    kind = some (tools.sniff bytes);
    bytes = length bytes;
    sha256 = some (tools.digest bytes);
  }

  abbrev pub undecoded : Bytes → UnreadAttachment
  undecoded reason = record { reason = reason; kind = none; bytes = 0; sha256 = none }

  -- What follows a successful decoding, given the outcome of the extraction.
  abbrev pub extraction_round :
      Config → Option NerService → Pointer → Bytes → Bytes ⊎ Extracted → Progress → Progress
  extraction_round config ner pointer bytes (inl err) st = with_unread st (unreadable err bytes)
  extraction_round config ner pointer bytes (inr x) st =
      extracted_round config ner pointer (tools.digest bytes) x st

  abbrev pub decoded_round :
      Config → Option NerService → Pointer → Bytes ⊎ Bytes → Progress → Progress
  decoded_round config ner pointer (inl err) st = with_unread st (undecoded err)
  decoded_round config ner pointer (inr bytes) st =
      extraction_round config ner pointer bytes
        (tools.extract bytes config.inspect.max_attachment_bytes) st

  -- One attachment: decoded, digested, sniffed, extracted, inspected. A pointer that reads as no
  -- text is passed over.
  unfoldable pub attachment_round :
      Config → Option NerService → Pointer → Option Bytes → Progress → Progress
  attachment_round config ner pointer none st = st
  attachment_round config ner pointer (some payload) st =
      decoded_round config ner pointer (tools.decode payload) st

module _ (J : Json) (tools : Extractor) (config : Config) (ner : Option NerService) where
  open J use {Value}

  -- The loop over the text pointers.
  unfoldable pub text_loop : Value → List Pointer → Progress → Progress
  text_loop body [] st = st
  text_loop body (p ∷ ps) st = text_loop body ps (text_round config ner p (read_text J body p) st)

  unfoldable pub attachments_loop : Value → List Attachment → Progress → Progress
  attachments_loop body [] st = st
  attachments_loop body (a ∷ rest) st =
      attachments_loop body rest
        (attachment_round tools config ner a.pointer (read_text J body a.pointer) st)

  -- The rewrites, applied to a copy of the body.
  unfoldable pub rewrite_body : Value → List (Pointer × Bytes) → Value
  rewrite_body copy [] = copy
  rewrite_body copy ((p, s) ∷ rest) = rewrite_body ((write_text J copy p s).0) rest

  unfoldable pub inspected : Provider → Value → Progress
  unfolding text_loop attachments_loop
  inspected provider body =
      let st = text_loop body (text_pointers J provider body) start in
      if config.inspect.attachments
      then attachments_loop body (attachments J provider body) st
      else st

  -- What is forwarded: a masked request's rewrites, nothing else.
  unfoldable pub masked_body : Value → Decision → List (Pointer × Bytes) → Option Value
  masked_body body overall rewrites =
      if Decision.eq overall masked && not (is_empty rewrites)
      then some (rewrite_body body rewrites)
      else none

  -- The record at the end of `inspect_request`.
  abbrev pub verdict : Value → Progress → List (Pointer × Bytes) → Inspection Value
  verdict body st rewrites = record {
    decision = st.overall;
    findings = st.findings;
    masked_body = masked_body body st.overall rewrites;
    ner_skipped = st.ner_skipped;
    unread_attachments = st.unread_attachments;
  }

  -- `inspect_request`, which panics where one of its calls of `mask_spans` does.
  unfoldable pub inspect_request : Provider → Value → Outcome (Inspection Value)
  unfolding settled inspected masked_body
  inspect_request provider body =
      let st = inspected provider body in
      and_then (settled st.rewrites) (λ rewrites. returns (verdict body st rewrites))
