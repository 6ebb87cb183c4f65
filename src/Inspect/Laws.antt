-- ===== src/Inspect/Laws.antt =====
-- What `inspect_request` promises about its decision, its findings and the masked body.
use sentin_npu.Adapters.{Provider, Attachment, text_pointers, attachments, read_text, is_some}
use sentin_npu.Config.{Config}
use mathlib.Core.Path.{subst}
use sentin_npu.Core.Decision.{Decision, masked, blocked}
use sentin_npu.Core.Device.{Outcome, returns, panics, and_then}
use sentin_npu.Inspect.Consistent.{
  AnswersDeclared, IsConsistent, start-IsConsistent, text_round-IsConsistent,
  extracted_round-IsConsistent, with_unread-IsConsistent,
}
use sentin_npu.Inspect.Pipeline.{
  Progress, start, extraction_round, decoded_round, attachment_round, text_loop, attachments_loop,
  inspected, settled, masked_body, verdict, inspect_request,
}
use sentin_npu.Inspect.Strongest.{
  strongest, IsWithin, Any, IsBlocker, strongest-blocked, strongest-masked,
}
use sentin_npu.Inspect.Types.{Inspection, NerService, Extractor, Extracted}
use sentin_npu.Json.{Json, Pointer}
use sentin_npu.Prelude.{
  ◌≡◌, ◌↔◌, refl, is_empty, sym, ◌∙◌, ◌⊎◌, inl, inr, Bool, true, false, List, [], ◌∷◌, Option, none,
  some, All, arith, Bytes, if◌then◌else◌,
}

and_then-returns {ℓ κ} :
    {A : Type ℓ} {B : Type κ} (m : Outcome A) (f : A → Outcome B) (b : B)
    → and_then m f ≡ returns b
    → (a : A) × (m ≡ returns a) × (f a ≡ returns b)
and_then-returns (returns a) f b h = (a, refl, h)
and_then-returns panics f b h = cc

returns_inj {ℓ} : {A : Type ℓ} (a b : A) → returns a ≡ returns b → a ≡ b
returns_inj a b h = cc

settled-is_empty :
    (rs : List (Pointer × Outcome Bytes)) (ws : List (Pointer × Bytes))
    → settled rs ≡ returns ws
    → is_empty ws ≡ is_empty rs
unfolding settled
settled-is_empty [] [] h = refl
settled-is_empty [] (w ∷ ws) h = absurd (ground arith)
settled-is_empty (r ∷ rs) (w ∷ ws) h = refl
settled-is_empty ((p, o) ∷ rs) [] h =
    let (s, e, k) = and_then-returns o _ [] h in
    let (ss, e2, k2) = and_then-returns (settled rs) _ [] k in absurd (ground arith)

if-IsConsistent :
    (config : Config) (b : Bool) (st other : Progress)
    → IsConsistent config [] st
    → IsConsistent config [] other
    → IsConsistent config [] (if b then st else other)
if-IsConsistent config true st other c d = c
if-IsConsistent config false st other c d = d

module _ (J : Json) (tools : Extractor) (config : Config) (ner : Option NerService)
    (answers : AnswersDeclared ner) where
  open J use {Value}

  extraction_round-IsConsistent :
      (p : Pointer) (bytes : Bytes) (o : Bytes ⊎ Extracted) (st : Progress)
      → IsConsistent config [] st
      → IsConsistent config [] (extraction_round tools config ner p bytes o st)
  extraction_round-IsConsistent p bytes (inl err) st c = with_unread-IsConsistent config st _ c
  extraction_round-IsConsistent p bytes (inr x) st c =
      extracted_round-IsConsistent config ner answers p (tools.digest bytes) x st c

  decoded_round-IsConsistent :
      (p : Pointer) (o : Bytes ⊎ Bytes) (st : Progress)
      → IsConsistent config [] st
      → IsConsistent config [] (decoded_round tools config ner p o st)
  decoded_round-IsConsistent p (inl err) st c = with_unread-IsConsistent config st _ c
  decoded_round-IsConsistent p (inr bytes) st c =
      extraction_round-IsConsistent p bytes
        (tools.extract bytes config.inspect.max_attachment_bytes) st c

  attachment_round-IsConsistent :
      (p : Pointer) (payload : Option Bytes) (st : Progress)
      → IsConsistent config [] st
      → IsConsistent config [] (attachment_round tools config ner p payload st)
  unfolding attachment_round
  attachment_round-IsConsistent p none st c = c
  attachment_round-IsConsistent p (some payload) st c =
      decoded_round-IsConsistent p (tools.decode payload) st c

  text_loop-IsConsistent :
      (body : Value) (ps : List Pointer) (st : Progress)
      → IsConsistent config [] st
      → IsConsistent config [] (text_loop J tools config ner body ps st)
  unfolding text_loop
  text_loop-IsConsistent body [] st c = c
  text_loop-IsConsistent body (p ∷ ps) st c =
      text_loop-IsConsistent body ps _
        (text_round-IsConsistent config ner answers p (read_text J body p) st c)

  attachments_loop-IsConsistent :
      (body : Value) (ps : List Attachment) (st : Progress)
      → IsConsistent config [] st
      → IsConsistent config [] (attachments_loop J tools config ner body ps st)
  unfolding attachments_loop
  attachments_loop-IsConsistent body [] st c = c
  attachments_loop-IsConsistent body (p ∷ ps) st c =
      attachments_loop-IsConsistent body ps _
        (attachment_round-IsConsistent p.pointer (read_text J body p.pointer) st c)

  masked_body-is_some :
      (body : Value) (st : Progress) (rewrites : List (Pointer × Bytes))
      → is_empty rewrites ≡ is_empty st.rewrites
      → st.overall ≡ masked
      → IsConsistent config [] st
      → is_some (masked_body J tools config ner body st.overall rewrites) ≡ true
  unfolding masked_body
  masked_body-is_some body st rewrites e h c =
      ground (arith, c.rewritten (strongest-masked st.findings (sym c.decision ∙ h)))

  masked_body-overall :
      (body : Value) (d : Decision) (rewrites : List (Pointer × Bytes))
      → is_some (masked_body J tools config ner body d rewrites) ≡ true
      → d ≡ masked
  unfolding masked_body
  masked_body-overall body d rewrites h = ground arith

  module _ (provider : Provider) (body : Value) where
    abbrev st : Progress
    st = inspected J tools config ner provider body

    inspected-IsConsistent : IsConsistent config [] st
    unfolding inspected
    inspected-IsConsistent =
        let texts =
          text_loop-IsConsistent body (text_pointers J provider body) start
            (start-IsConsistent config) in
        if-IsConsistent config config.inspect.attachments _ _
          (attachments_loop-IsConsistent body (attachments J provider body) _ texts) texts

    -- What returns is the verdict on the rewrites.
    inspect_request-verdict :
        (i : Inspection Value)
        → inspect_request J tools config ner provider body ≡ returns i
        → (ws : List (Pointer × Bytes)) × (settled st.rewrites ≡ returns ws)
          × (verdict J tools config ner body st ws ≡ i)
    unfolding inspect_request
    inspect_request-verdict i e =
        let (ws, s, k) = and_then-returns (settled st.rewrites) _ i e in (ws, s, returns_inj _ i k)

    module _ (i : Inspection Value)
        (e : inspect_request J tools config ner provider body ≡ returns i) where
      -- Where layer 2, if any, reports each kind with the layer and evidence that it declares: when
      -- `inspect_request` returns, the request's decision is the strongest of its findings'
      -- decisions, `observed` without any.
      pub inspect_request-strongest : i.decision ≡ strongest i.findings
      inspect_request-strongest =
          let (ws, s, k) = inspect_request-verdict i e in
          subst (λ (i : Inspection Value). i.decision ≡ strongest i.findings) k
            inspected-IsConsistent.decision

      -- Where layer 2, if any, reports each kind with the layer and evidence that it declares: when
      -- `inspect_request` returns, every finding's decision is at most the mode configured for its
      -- kind and at most the kind's ceiling, and never `masked` in an attachment.
      pub inspect_request-All-IsWithin : All (IsWithin config) i.findings
      inspect_request-All-IsWithin =
          let (ws, s, k) = inspect_request-verdict i e in
          subst (λ (i : Inspection Value). All (IsWithin config) i.findings) k
            inspected-IsConsistent.within

      -- Where layer 2, if any, reports each kind with the layer and evidence that it declares: when
      -- `inspect_request` returns, a request that is blocked has a finding that is decided
      -- `blocked`, of a kind whose evidence is a checksum and for which blocking is configured.
      pub inspect_request-blocked : i.decision ≡ blocked → Any (IsBlocker config) i.findings
      inspect_request-blocked b =
          strongest-blocked config i.findings inspect_request-All-IsWithin
            (sym inspect_request-strongest ∙ b)

      -- Where layer 2, if any, reports each kind with the layer and evidence that it declares: when
      -- `inspect_request` returns, a request has a masked body exactly when its decision is
      -- `masked`.
      pub inspect_request-masked_iff : (is_some i.masked_body ≡ true) ↔ (i.decision ≡ masked)
      inspect_request-masked_iff =
          let (ws, s, k) = inspect_request-verdict i e in
          subst (λ (i : Inspection Value). (is_some i.masked_body ≡ true) ↔ (i.decision ≡ masked)) k
            (
              λ h. masked_body-overall body st.overall ws h,
              λ h.
                  masked_body-is_some body st ws (settled-is_empty st.rewrites ws s) h
                    inspected-IsConsistent,
            )
