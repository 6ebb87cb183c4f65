-- ===== src/Inspect/Total.antt =====
-- When `inspect_request` returns: no call of `mask_spans` in it panics.
use sentin_npu.Adapters.{Provider, Attachment, text_pointers, attachments, read_text}
use sentin_npu.Config.{Config}
use sentin_npu.Core.Decision
use sentin_npu.Core.Decision.{masked}
use sentin_npu.Core.Device.{Outcome, returns, is_char_boundary}
use sentin_npu.Core.Finding.{Finding}
use sentin_npu.Inspect.Consistent.{entities}
use sentin_npu.Inspect.Pipeline.{
  Progress, start, ask, answered, with_skip, with_rewrite, prompt_decision, prompt_loop,
  attachment_loop, detected_round, text_round, extracted_round, extraction_round, decoded_round,
  attachment_round, text_loop, attachments_loop, settled, inspected, verdict, inspect_request,
}
use sentin_npu.Inspect.Types.{AttachmentInfo, Inspection, Skipped, NerService, Extracted, Extractor}
use sentin_npu.Json.{Json, Pointer}
use sentin_npu.Mask.{Span, mask_spans}
use sentin_npu.Mask.Reference.{IsInside, mask_spans-masked_from}
use sentin_npu.Prelude.{
  ◌≤◌, ◌≡◌, refl, ◌∙◌, ◌⊎◌, inl, inr, Bool, true, false, List, [], ◌∷◌, ◌++◌, Option, none, some,
  All, All-append, arith, length, Bytes, Bool-cases, if◌then◌else◌,
}
use sentin_npu.Scan.Detect.{detect}
use sentin_npu.Scan.Laws.Detect.{detect-All-IsSound}
use sentin_npu.Scan.Laws.Sound.{IsSound}

abbrev span_of : Finding → Span
span_of f = (f.span, f.kind)

-- A finding that begins and ends on boundaries of a text's characters.
pub record IsAligned (text : Bytes) (f : Finding) : Type 0 where
  pub first : is_char_boundary text f.span.start ≡ true
  pub last : is_char_boundary text f.span.end ≡ true

-- A finding inside a text, on boundaries of its characters.
pub record IsPlaced (text : Bytes) (f : Finding) : Type 0 where
  pub ordered : f.span.start ≤ f.span.end
  pub inside : f.span.end ≤ length text
  pub aligned : IsAligned text f

-- Layer 2 reports findings inside the text that it is given.
abbrev pub AnswersPlaced : Option NerService → Type 0
AnswersPlaced none = Unit
AnswersPlaced (some service) =
    (p : Pointer) (text : Bytes) → All (IsPlaced text) (entities (service p text))

IsPlaced-IsInside : (text : Bytes) (f : Finding) → IsPlaced text f → IsInside text (span_of f)
IsPlaced-IsInside text f h = (h.ordered, h.inside, h.aligned.first, h.aligned.last)

detect-IsPlaced :
    (text : Bytes) → All (IsAligned text) (detect text) → All (IsPlaced text) (detect text)
detect-IsPlaced text a = placed (detect text) (detect-All-IsSound text) a
  where
    placed :
        (fs : List Finding)
        → All (IsSound text) fs
        → All (IsAligned text) fs
        → All (IsPlaced text) fs
    placed [] s a = tt
    placed (f ∷ fs) (s, ss) (a, rest) =
        let wide = s.nonempty in
        (record { ordered = omega arith; inside = s.inside; aligned = a }, placed fs ss rest)

ask-IsPlaced :
    (ner : Option NerService) (p : Pointer) (text : Bytes) (skipped : Option Skipped)
    → AnswersPlaced ner
    → All (IsPlaced text) (ask ner p text skipped).0
ask-IsPlaced none p text skipped h = tt
ask-IsPlaced (some service) p text skipped h = answered-placed (service p text) (h p text)
  where
    answered-placed :
        (a : Skipped ⊎ List Finding)
        → All (IsPlaced text) (entities a)
        → All (IsPlaced text) (answered skipped a).0
    answered-placed (inl reason) d = tt
    answered-placed (inr fs) d = d

-- A rewrite that did not panic.
abbrev Returned : Pointer × Outcome Bytes → Type 0
Returned r = (s : Bytes) × (r.1 ≡ returns s)

abbrev IsReady : Progress → Type 0
IsReady st = All Returned st.rewrites

settled-returns :
    (rs : List (Pointer × Outcome Bytes))
    → All Returned rs
    → (ws : List (Pointer × Bytes)) × (settled rs ≡ returns ws)
unfolding settled
settled-returns [] h = ([], refl)
settled-returns ((p, o) ∷ rs) ((s, e), h) =
    let (ws, k) = settled-returns rs h in ((p, s) ∷ ws, rw (e, k) refl)

module _ (config : Config) where
  prompt_loop-rewrites :
      (fs : List Finding) (st : Progress) (to_mask : List Span)
      → (prompt_loop config fs (st, to_mask)).0.rewrites ≡ st.rewrites
  unfolding prompt_loop
  prompt_loop-rewrites [] st to_mask = refl
  prompt_loop-rewrites (f ∷ fs) st to_mask = prompt_loop-rewrites fs _ _

  if-All :
      (P : Span → Type 0) (b : Bool) (xs : List Span) (x : Span)
      → All P xs
      → P x
      → All P (if b then xs ++ x ∷ [] else xs)
  if-All P true xs x h p = All-append P xs (x ∷ []) h (p, tt)
  if-All P false xs x h p = h

  prompt_loop-IsInside :
      (text : Bytes) (fs : List Finding) (st : Progress) (to_mask : List Span)
      → All (IsPlaced text) fs
      → All (IsInside text) to_mask
      → All (IsInside text) (prompt_loop config fs (st, to_mask)).1
  unfolding prompt_loop
  prompt_loop-IsInside text [] st to_mask h i = i
  prompt_loop-IsInside text (f ∷ fs) st to_mask (p, h) i = prompt_loop-IsInside text fs _ _ h (
      if-All (IsInside text) (Decision.ge (prompt_decision config f) masked) to_mask (span_of f) i
        (IsPlaced-IsInside text f p))

  with_rewrite-IsReady :
      (p : Pointer) (text : Bytes) (st : Progress) (to_mask : List Span)
      → All (IsInside text) to_mask
      → IsReady st
      → IsReady (with_rewrite p text (st, to_mask))
  with_rewrite-IsReady p text st [] i r = r
  with_rewrite-IsReady p text st (x ∷ xs) i r =
      All-append Returned st.rewrites ((p, mask_spans text (x ∷ xs)) ∷ []) r
        ((_, mask_spans-masked_from text (x ∷ xs) i), tt)

  detected_round-IsReady :
      (p : Pointer) (text : Bytes) (fs : List Finding) (st : Progress)
      → All (IsPlaced text) fs
      → IsReady st
      → IsReady (detected_round config p text fs st)
  unfolding detected_round
  detected_round-IsReady p text [] st h r = r
  detected_round-IsReady p text (f ∷ fs) st h r =
      with_rewrite-IsReady p text _ _ (prompt_loop-IsInside text (f ∷ fs) st [] h tt)
        (rw (prompt_loop-rewrites (f ∷ fs) st []) r)

  attachment_loop-rewrites :
      (info : AttachmentInfo) (fs : List Finding) (st : Progress)
      → (attachment_loop config info fs st).rewrites ≡ st.rewrites
  unfolding attachment_loop
  attachment_loop-rewrites info [] st = refl
  attachment_loop-rewrites info (f ∷ fs) st = attachment_loop-rewrites info fs _

  module _ (ner : Option NerService) where
    extracted_round-rewrites :
        (p : Pointer) (sha256 : Bytes) (x : Extracted) (st : Progress)
        → (extracted_round config ner p sha256 x st).rewrites ≡ st.rewrites
    unfolding extracted_round
    extracted_round-rewrites p sha256 x st =
        let same =
          attachment_loop-rewrites _ _ (with_skip st (ask ner p x.text st.ner_skipped).1) in
        elim (Bool-cases x.truncated) [ inl cut ↦ rw cut same | inr whole ↦ rw whole same ]

    module _ (tools : Extractor) where
      extraction_round-rewrites :
          (p : Pointer) (bytes : Bytes) (o : Bytes ⊎ Extracted) (st : Progress)
          → (extraction_round tools config ner p bytes o st).rewrites ≡ st.rewrites
      extraction_round-rewrites p bytes (inl err) st = refl
      extraction_round-rewrites p bytes (inr x) st =
          extracted_round-rewrites p (tools.digest bytes) x st

      attachment_round-rewrites :
          (p : Pointer) (payload : Option Bytes) (st : Progress)
          → (attachment_round tools config ner p payload st).rewrites ≡ st.rewrites
      unfolding attachment_round
      attachment_round-rewrites p none st = refl
      attachment_round-rewrites p (some payload) st = by_outcome (tools.decode payload)
        where
          by_outcome :
              (o : Bytes ⊎ Bytes) → (decoded_round tools config ner p o st).rewrites ≡ st.rewrites
          by_outcome (inl err) = refl
          by_outcome (inr bytes) =
              extraction_round-rewrites p bytes
                (tools.extract bytes config.inspect.max_attachment_bytes) st

-- The spans that `detect` finds in the text, if there is one, are on boundaries of its characters.
abbrev pub FindsAligned : Option Bytes → Type 0
FindsAligned none = Unit
FindsAligned (some text) = All (IsAligned text) (detect text)

if-IsReady :
    (b : Bool) (st other : Progress)
    → IsReady st
    → IsReady other
    → IsReady (if b then st else other)
if-IsReady true st other r k = r
if-IsReady false st other r k = k

module _ (J : Json) (tools : Extractor) (config : Config) (ner : Option NerService)
    (placed : AnswersPlaced ner) (provider : Provider) (body : J.Value) where
  text_round-IsReady :
      (p : Pointer) (o : Option Bytes) (st : Progress)
      → FindsAligned o
      → IsReady st
      → IsReady (text_round config ner p o st)
  unfolding text_round
  text_round-IsReady p none st a r = r
  text_round-IsReady p (some text) st a r =
      detected_round-IsReady config p text (detect text ++ (ask ner p text st.ner_skipped).0) _
        (All-append (IsPlaced text) (detect text) (ask ner p text st.ner_skipped).0
          (detect-IsPlaced text a) (ask-IsPlaced ner p text st.ner_skipped placed))
        r

  text_loop-IsReady :
      (ps : List Pointer) (st : Progress)
      → All (λ p. FindsAligned (read_text J body p)) ps
      → IsReady st
      → IsReady (text_loop J tools config ner body ps st)
  unfolding text_loop
  text_loop-IsReady [] st a r = r
  text_loop-IsReady (p ∷ ps) st (a, rest) r =
      text_loop-IsReady ps _ rest (text_round-IsReady p (read_text J body p) st a r)

  attachments_loop-rewrites :
      (ps : List Attachment) (st : Progress)
      → (attachments_loop J tools config ner body ps st).rewrites ≡ st.rewrites
  unfolding attachments_loop
  attachments_loop-rewrites [] st = refl
  attachments_loop-rewrites (p ∷ ps) st =
      attachments_loop-rewrites ps _
      ∙ attachment_round-rewrites config ner tools p.pointer (read_text J body p.pointer) st

  module _
      (aligned : All (λ p. FindsAligned (read_text J body p)) (text_pointers J provider body)) where
    inspected-IsReady : IsReady (inspected J tools config ner provider body)
    unfolding inspected
    inspected-IsReady =
        let texts = text_loop-IsReady (text_pointers J provider body) start aligned tt in
        let after = text_loop J tools config ner body (text_pointers J provider body) start in
        let same = attachments_loop-rewrites (attachments J provider body) after in
        if-IsReady config.inspect.attachments _ after (rw same texts) texts

    -- Where the spans of layer 2, if any, are inside the text it is given and on boundaries of its
    -- characters, and the spans that `detect` finds in each text of the body are on boundaries too:
    -- `inspect_request` returns.
    pub inspect_request-returns :
        (i : Inspection J.Value) × (inspect_request J tools config ner provider body ≡ returns i)
    unfolding inspect_request
    inspect_request-returns =
        let st = inspected J tools config ner provider body in
        let (ws, e) = settled-returns st.rewrites inspected-IsReady in
        (verdict J tools config ner body st ws, rw e refl)
