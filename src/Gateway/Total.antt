-- ===== src/Gateway/Total.antt =====
-- When the handler returns: no panic of the record or of the masking ends it.
use mathlib.Core.Path.{ap}
use sentin_npu.Adapters.{Provider, from_name, read_text, text_pointers}
use sentin_npu.Config.{Config, Upstream, provider_for}
use sentin_npu.Core.Device.{returns}
use sentin_npu.Gateway.Handler.{
  Request, Handled, inspected, World, parsed, with_body, routed, proxy,
}
use sentin_npu.Gateway.Laws.{if-true, judged-Implements}
use sentin_npu.Inspect.Consistent.{AnswersDeclared}
use sentin_npu.Inspect.Laws.{inspect_request-masked_iff}
use sentin_npu.Inspect.Total.{AnswersPlaced, FindsAligned, inspect_request-returns}
use sentin_npu.Inspect.Types.{NerService, Extractor}
use sentin_npu.Json.{Json}
use sentin_npu.Prelude.{
  ◌≡◌, refl, ◌∙◌, inl, inr, ◌&&◌, not, Option, none, some, All, is_empty, Bytes, Bool-cases,
}
use sentin_npu.Record.Laws.{IsAsciiName}

module _ (J : Json) (world : World J.Value) (tools : Extractor) (config : Config)
    (ner : Option NerService) (device : Option Bytes) (answers : AnswersDeclared ner)
    (ascii : IsAsciiName device) (placed : AnswersPlaced ner) (r : Request) where
  open J use {Value}

  parsed-returns :
      (name : Bytes) (provider : Upstream) (bytes : Bytes) (schema : Option Provider)
      (body : Option Value)
      → ((s : Provider) (v : Value)
          → body ≡ some v
          → All (λ p. FindsAligned (read_text J v p)) (text_pointers J s v))
      → (h : Handled) × (parsed J world tools config ner device name provider r bytes schema body
          ≡ returns h)
  parsed-returns name provider bytes none body aligned = (_, refl)
  parsed-returns name provider bytes (some schema) none aligned = (_, refl)
  parsed-returns name provider bytes (some schema) (some body) aligned =
      let (verdict, e) =
        inspect_request-returns J tools config ner placed schema body (aligned schema body refl) in
      let (h, k, i) =
        judged-Implements J world tools config ner device answers ascii name provider r bytes body
          verdict (inspect_request-masked_iff J tools config ner answers schema body verdict e) in
      (h, ap (inspected J world tools config ner device name provider r bytes body) e ∙ k)

  -- For a device name that is ASCII or absent, a layer 2, if any, that reports each kind as it is
  -- declared and spans inside the text on boundaries of its characters, and a request in whose
  -- texts, when its body parses, `detect` finds spans on boundaries: the handler returns,
  -- whatever the path, the body and the answer of the upstream.
  pub proxy-returns :
      ((s : Provider) (bytes : Bytes) (v : Value)
        → r.body ≡ some bytes
        → world.from_slice bytes ≡ some v
        → All (λ p. FindsAligned (read_text J v p)) (text_pointers J s v))
      → (h : Handled) × (proxy J world tools config ner device r ≡ returns h)
  unfolding proxy
  proxy-returns aligned = by_route (provider_for config r.path)
    where
      by_body :
          (name : Bytes) (provider : Upstream) (body : Option Bytes)
          → r.body ≡ body
          → (h : Handled) × (with_body J world tools config ner device name provider r body
              ≡ returns h)
      by_body name provider none e = (_, refl)
      by_body name provider (some bytes) e =
          elim (Bool-cases (config.inspect.request && not (is_empty bytes))) [
            | inl to_inspect ↦
                let (h, k) =
                  parsed-returns name provider bytes (from_name name) (world.from_slice bytes)
                    (λ s v is_body. aligned s bytes v e is_body) in
                (h, if-true _ _ _ to_inspect ∙ k)
            | inr as_is ↦ rw as_is (_, refl)
          ]

      by_route :
          (o : Option (Bytes × Upstream))
          → (h : Handled) × (routed J world tools config ner device r o ≡ returns h)
      by_route none = (_, refl)
      by_route (some (name, provider)) = by_body name provider r.body refl
