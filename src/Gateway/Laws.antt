-- ===== src/Gateway/Laws.antt =====
-- The handler carries out the policy.
use sentin_npu.Adapters.{is_some}
use sentin_npu.Audit.Event.{Event}
use sentin_npu.Config.{Config, Upstream}
use sentin_npu.Core.Decision.{Decision, observed, advised, masked, blocked}
use sentin_npu.Core.Device.{returns}
use sentin_npu.Gateway.Handler.{
  Request, Answer, Handled, url_of, relay, answered, with_events, recorded, World, refuses, forward,
  decided, context_of, judged,
}
use sentin_npu.Gateway.Headers.{forwardable_headers}
use sentin_npu.Gateway.Policy.{of_decision, action, IsPassedOn, reply_to, Implements}
use sentin_npu.Inspect.Consistent.{AnswersDeclared}
use sentin_npu.Inspect.Types.{Inspection, NerService, Extractor}
use sentin_npu.Json.{Json}
use sentin_npu.Prelude.{
  ◌≡◌, ◌≢◌, ◌↔◌, refl, sym, ap, ◌∙◌, inl, inr, Bool, true, false, List, map, Option, none, some,
  if◌then◌else◌, arith, Bytes, Bool-cases, Option-cases,
}
use sentin_npu.Record.Laws.{reports, reported, IsAsciiName, record_request-reports}

observed-ne : observed ≢ masked
observed-ne e = ground arith

advised-ne : advised ≢ masked
advised-ne e = ground arith

false-ne : false ≢ true
false-ne e = ground arith

some-ne {ℓ} : {A : Type ℓ} (a : A) → some a ≢ none
some-ne a e = ground arith

pub if-true {ℓ} : {A : Type ℓ} (b : Bool) (x y : A) → b ≡ true → (if b then x else y) ≡ x
if-true b x y e = rw e refl

passed_on :
    (provider : Upstream) (r : Request) (body : Bytes)
    → IsPassedOn provider r body (record {
      method = r.method;
      url = url_of provider r;
      headers = forwardable_headers r.headers;
      body = body;
    })
unfolding url_of
passed_on provider r body = record { method = refl; url = refl; headers = refl; body = refl }

module _ (J : Json) (world : World J.Value) (tools : Extractor) (config : Config)
    (ner : Option NerService) (device : Option Bytes) where
  open J use {Value}

  abbrev after_record : Upstream → Request → Bytes → Inspection Value → Handled
  after_record = decided J world tools config ner device

  relayed_answer :
      (d : Decision) (o : Option Answer)
      → answered J world tools config ner device d o ≡ reply_to config.inspect.stream_strategy d o
  unfolding relay
  relayed_answer d none = refl
  relayed_answer d (some answer) = refl

  -- With the events recorded, what follows the record carries out the decision's action.
  decided-Implements :
      (provider : Upstream) (r : Request) (bytes : Bytes) (verdict : Inspection Value)
      (es : List Event)
      → reports es ≡ map reported verdict.findings
      → ((is_some verdict.masked_body ≡ true) ↔ (verdict.decision ≡ masked))
      → Implements world config.inspect.stream_strategy provider r bytes verdict
          (of_decision verdict.decision)
          (with_events es (after_record provider r bytes verdict))
  unfolding decided forward
  decided-Implements provider r bytes verdict es h m =
      by_cases verdict.decision refl verdict.masked_body refl
    where
      by_cases :
          (d : Decision)
          → verdict.decision ≡ d
          → (o : Option Value) → verdict.masked_body ≡ o
          → Implements world config.inspect.stream_strategy provider r bytes verdict
              (of_decision verdict.decision)
              (with_events es (after_record provider r bytes verdict))
      by_cases blocked e o eo = rw e (h, refl, refl)
      by_cases observed e none eo =
          rw (e, eo)
            (h, (_, refl, passed_on provider r bytes, relayed_answer observed (world.send _)))
      by_cases observed e (some v) eo = absurd (observed-ne (sym e ∙ m.0 (ap is_some eo)))
      by_cases advised e none eo =
          rw (e, eo)
            (h, (_, refl, passed_on provider r bytes, relayed_answer advised (world.send _)))
      by_cases advised e (some v) eo = absurd (advised-ne (sym e ∙ m.0 (ap is_some eo)))
      by_cases masked e none eo = absurd (false-ne (sym (ap is_some eo) ∙ m.1 e))
      by_cases masked e (some v) eo = elim (Option-cases (world.to_vec v)) [
        | inl fails ↦ rw (e, eo, fails) (h, (v, refl, inr (refl, fails, refl)))
        | inr (b, works) ↦
            rw (e, eo, works)
              (
                h,
                (
                  v,
                  refl,
                  inl (
                    b,
                    works,
                    (_, refl, passed_on provider r b, relayed_answer masked (world.send _)),
                  ),
                ),
              )
      ]

  module _ (answers : AnswersDeclared ner) (ascii : IsAsciiName device) where
    pub judged-Implements :
        (name : Bytes) (provider : Upstream) (r : Request) (bytes : Bytes) (body : Value)
        (verdict : Inspection Value)
        → ((is_some verdict.masked_body ≡ true) ↔ (verdict.decision ≡ masked))
        → (h : Handled) × (judged J world tools config ner device name provider r bytes body verdict
            ≡ returns h)
          × Implements world config.inspect.stream_strategy provider r bytes verdict
              (action config.inference.timeout_policy verdict)
              h
    unfolding judged
    judged-Implements name provider r bytes body verdict m =
        elim (Bool-cases (refuses config.inference.timeout_policy verdict.ner_skipped)) [
          | inl closed ↦ rw closed (_, refl, (refl, refl, refl))
          | inr open_ ↦
              let (es, e, k) =
                record_request-reports world.now (world.digest bytes) world.debug
                  (context_of J world tools config ner device name provider r body) verdict ascii in
              rw open_ (
                _,
                ap (λ o. recorded o (after_record provider r bytes verdict)) e,
                decided-Implements provider r bytes verdict es k m,
              )
        ]
