-- ===== src/Inspect/Consistent.antt =====
-- What holds of the variables of `inspect_request` between two rounds of its loops.
use sentin_npu.Config.{Config}
use sentin_npu.Core.Ceiling.{IsDeclared}
use sentin_npu.Core.DataKind
use sentin_npu.Core.DataKind.{DataKind}
use sentin_npu.Core.Decision
use sentin_npu.Core.Decision.{Decision, observed, advised, masked, blocked}
use sentin_npu.Core.Finding.{Finding}
use sentin_npu.Core.Layer.{deterministic}
use sentin_npu.Inspect.Pipeline.{
  Progress, start, ask, answered, with_skip, with_unread, with_rewrite, prompt_decision,
  prompt_summary, attachment_summary, prompt_loop, attachment_loop, text_round, detected_round,
  extracted_round,
}
use sentin_npu.Inspect.Strongest.{
  strongest, strongest-append, IsWithin, prompt_summary-IsWithin, attachment_summary-IsWithin, Any,
}
use sentin_npu.Audit.Event.{prompt, attachment}
use sentin_npu.Inspect.Types.{
  FindingSummary, AttachmentInfo, UnreadAttachment, Skipped, NerService, Extracted,
}
use sentin_npu.Json.{Pointer}
use sentin_npu.Mask.{Span, mask_spans}
use sentin_npu.Prelude.{
  ◌≡◌, ◌≢◌, refl, ap, sym, ◌∙◌, ◌⊎◌, inl, inr, Bool, true, false, ◌&&◌, List, [], ◌∷◌, ◌++◌, Option,
  none, some, All, All-append, All-imp, arith, is_empty, Bytes, Bool-cases, if◌then◌else◌,
}
use sentin_npu.Scan.Detect.{detect}
use sentin_npu.Scan.Laws.Detect.{detect-All-IsSound}
use sentin_npu.Scan.Laws.Sound.{Evidence, IsSound}

-- The entities in an answer of layer 2.
abbrev pub entities : Skipped ⊎ List Finding → List Finding
entities (inl reason) = []
entities (inr fs) = fs

-- Layer 2 reports a kind with the layer and the evidence that the kind declares.
abbrev pub AnswersDeclared : Option NerService → Type 0
AnswersDeclared none = Unit
AnswersDeclared (some service) =
    (p : Pointer) (text : Bytes) → All IsDeclared (entities (service p text))

Evidence-layer : (k : DataKind) (s : Bytes) → Evidence k s → DataKind.layer k ≡ deterministic
unfolding DataKind.layer
Evidence-layer k s e = ground arith

IsSound-IsDeclared : (bytes : Bytes) (f : Finding) → IsSound bytes f → IsDeclared f
IsSound-IsDeclared bytes f h = (h.by_layer ∙ sym (Evidence-layer f.kind _ h.evidence), h.declared)

detect-IsDeclared : (text : Bytes) → All IsDeclared (detect text)
detect-IsDeclared text = All-imp (IsSound-IsDeclared text) (detect text) (detect-All-IsSound text)

ask-IsDeclared :
    (ner : Option NerService) (p : Pointer) (text : Bytes) (skipped : Option Skipped)
    → AnswersDeclared ner
    → All IsDeclared (ask ner p text skipped).0
ask-IsDeclared none p text skipped h = tt
ask-IsDeclared (some service) p text skipped h = answered-entities (service p text) (h p text)
  where
    answered-entities :
        (a : Skipped ⊎ List Finding)
        → All IsDeclared (entities a)
        → All IsDeclared (answered skipped a).0
    answered-entities (inl reason) d = tt
    answered-entities (inr fs) d = d

detected-IsDeclared :
    (ner : Option NerService) (p : Pointer) (text : Bytes) (skipped : Option Skipped)
    → AnswersDeclared ner
    → All IsDeclared (detect text ++ (ask ner p text skipped).0)
detected-IsDeclared ner p text skipped h =
    All-append IsDeclared (detect text) (ask ner p text skipped).0 (detect-IsDeclared text)
      (ask-IsDeclared ner p text skipped h)

attachment-ne : attachment ≢ prompt
attachment-ne = ground arith

-- What holds of the local variables between two rounds; `pending` are the spans of the text at hand
-- that are yet to be masked.
pub record IsConsistent (config : Config) (pending : List Span) (st : Progress) : Type 0 where
  pub decision : st.overall ≡ strongest st.findings
  pub within : All (IsWithin config) st.findings
  pub rewritten :
      Any (λ s. s.decision ≡ masked) st.findings
      → (is_empty st.rewrites && is_empty pending) ≡ false

Any-append :
    (P : FindingSummary → Type 0) (ss : List FindingSummary) (s : FindingSummary)
    → Any P (ss ++ s ∷ [])
    → Any P ss ⊎ P s
Any-append P [] s (inl h) = inr h
Any-append P [] s (inr h) = absurd h
Any-append P (x ∷ ss) s (inl h) = inl (inl h)
Any-append P (x ∷ ss) s (inr h) = elim (Any-append P ss s h) [ inl a ↦ inl (inr a) | inr b ↦ inr b ]

is_empty-append : {A : Type 0} (xs : List A) (x : A) → is_empty (xs ++ x ∷ []) ≡ false
is_empty-append [] x = refl
is_empty-append (y ∷ xs) x = refl

-- The spans to mask after one more finding.
abbrev grown : Decision → List Span → Span → List Span
grown d to_mask x = if Decision.ge d masked then to_mask ++ x ∷ [] else to_mask

pending_before :
    (r : Bool) (d : Decision) (to_mask : List Span) (x : Span)
    → (r && is_empty to_mask) ≡ false
    → (r && is_empty (grown d to_mask x)) ≡ false
pending_before r d to_mask x h = ground (arith, is_empty-append to_mask x)

pending_now :
    (r : Bool) (d : Decision) (to_mask : List Span) (x : Span)
    → d ≡ masked
    → (r && is_empty (grown d to_mask x)) ≡ false
pending_now r d to_mask x h = ground (arith, is_empty-append to_mask x)

pub start-IsConsistent : (config : Config) → IsConsistent config [] start
start-IsConsistent config = record { decision = refl; within = tt; rewritten = λ h. absurd h }

module _ (config : Config) where
  prompt_loop-IsConsistent :
      (fs : List Finding) (st : Progress) (to_mask : List Span)
      → All IsDeclared fs
      → IsConsistent config to_mask st
      → IsConsistent config
          (prompt_loop config fs (st, to_mask)).1
          (prompt_loop config fs (st, to_mask)).0
  unfolding prompt_loop
  prompt_loop-IsConsistent [] st to_mask h c = c
  prompt_loop-IsConsistent (f ∷ fs) st to_mask (d, h) c =
      prompt_loop-IsConsistent fs _ _ h (record {
        decision = rw (strongest-append st.findings (prompt_summary config f), c.decision) refl;
        within =
            All-append (IsWithin config) st.findings (prompt_summary config f ∷ []) c.within
              (prompt_summary-IsWithin config f d, tt);
        rewritten = λ a. elim (Any-append _ st.findings (prompt_summary config f) a) [
          | inl before ↦
              pending_before (is_empty st.rewrites) (prompt_decision config f) to_mask
                (f.span, f.kind) (c.rewritten before)
          | inr now ↦
              pending_now (is_empty st.rewrites) (prompt_decision config f) to_mask (f.span, f.kind)
                now
        ];
      })

  with_rewrite-IsConsistent :
      (p : Pointer) (text : Bytes) (st : Progress) (to_mask : List Span)
      → IsConsistent config to_mask st
      → IsConsistent config [] (with_rewrite p text (st, to_mask))
  with_rewrite-IsConsistent p text st [] c = c
  with_rewrite-IsConsistent p text st (x ∷ xs) c = record {
    decision = c.decision;
    within = c.within;
    rewritten =
        λ a. ap (λ b. b && true) (is_empty-append st.rewrites (p, mask_spans text (x ∷ xs)));
  }

  with_skip-IsConsistent :
      (st : Progress) (skipped : Option Skipped)
      → IsConsistent config [] st
      → IsConsistent config [] (with_skip st skipped)
  with_skip-IsConsistent st skipped c = record {
    decision = c.decision;
    within = c.within;
    rewritten = c.rewritten;
  }

  pub with_unread-IsConsistent :
      (st : Progress) (unread : UnreadAttachment)
      → IsConsistent config [] st
      → IsConsistent config [] (with_unread st unread)
  with_unread-IsConsistent st unread c = record {
    decision = c.decision;
    within = c.within;
    rewritten = c.rewritten;
  }

  attachment_loop-IsConsistent :
      (info : AttachmentInfo) (fs : List Finding) (st : Progress)
      → All IsDeclared fs
      → IsConsistent config [] st
      → IsConsistent config [] (attachment_loop config info fs st)
  unfolding attachment_loop
  attachment_loop-IsConsistent info [] st h c = c
  attachment_loop-IsConsistent info (f ∷ fs) st (d, h) c =
      let s = attachment_summary config info f in
      let w = attachment_summary-IsWithin config info f d in
      attachment_loop-IsConsistent info fs _ h (record {
        decision = rw (strongest-append st.findings s, c.decision) refl;
        within = All-append (IsWithin config) st.findings (s ∷ []) c.within (w, tt);
        rewritten = λ a. elim (Any-append _ st.findings s a) [
          | inl before ↦ c.rewritten before
          | inr now ↦ elim w.unmasked [
            | inl e ↦ absurd (attachment-ne e)
            | inr ne ↦ absurd (ne now)
          ]
        ];
      })

  detected_round-IsConsistent :
      (p : Pointer) (text : Bytes) (fs : List Finding) (st : Progress)
      → All IsDeclared fs
      → IsConsistent config [] st
      → IsConsistent config [] (detected_round config p text fs st)
  unfolding detected_round
  detected_round-IsConsistent p text [] st h c = c
  detected_round-IsConsistent p text (f ∷ fs) st h c =
      with_rewrite-IsConsistent p text _ _ (prompt_loop-IsConsistent (f ∷ fs) st [] h c)

  module _ (ner : Option NerService) (answers : AnswersDeclared ner) where
    pub text_round-IsConsistent :
        (p : Pointer) (text : Option Bytes) (st : Progress)
        → IsConsistent config [] st
        → IsConsistent config [] (text_round config ner p text st)
    unfolding text_round
    text_round-IsConsistent p none st c = c
    text_round-IsConsistent p (some text) st c =
        let answer = ask ner p text st.ner_skipped in
        detected_round-IsConsistent p text (detect text ++ answer.0) (with_skip st answer.1)
          (detected-IsDeclared ner p text st.ner_skipped answers)
          (with_skip-IsConsistent st answer.1 c)

    pub extracted_round-IsConsistent :
        (p : Pointer) (sha256 : Bytes) (x : Extracted) (st : Progress)
        → IsConsistent config [] st
        → IsConsistent config [] (extracted_round config ner p sha256 x st)
    unfolding extracted_round
    extracted_round-IsConsistent p sha256 x st c =
        let answer = ask ner p x.text st.ner_skipped in
        let inner =
          attachment_loop-IsConsistent _ _ _
            (detected-IsDeclared ner p x.text st.ner_skipped answers)
            (with_skip-IsConsistent st answer.1 c) in
        elim (Bool-cases x.truncated) [
          | inl cut ↦ rw cut (with_unread-IsConsistent _ _ inner)
          | inr whole ↦ rw whole inner
        ]
