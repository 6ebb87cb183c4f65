-- ===== src/Gateway/Policy.antt =====
-- What the gateway promises to do with an inspected request, said without the handler's steps: four
-- actions, which one applies, and what it means to carry one out.
use sentin_npu.Config.{Upstream, TimeoutPolicy, StreamStrategy}
use sentin_npu.Core.Decision.{Decision, observed, advised, masked, blocked}
use sentin_npu.Gateway.Handler.{
  Request, Sent, Answer, Reply, error, blocked_response, relayed, Handled, World, blocking_kinds,
  status_or_502, relay_body, advisory, strip_or_whole, with_query, refuses,
}
use sentin_npu.Gateway.Headers.{forwardable_headers, relayed_headers}
use sentin_npu.Gateway.Names.{trim_end_matches}
use sentin_npu.Inspect.Types.{Inspection}
use sentin_npu.Prelude.{◌≡◌, ◌⊎◌, ◌++◌, [], map, Option, none, some, if◌then◌else◌, Bytes, codes}
use sentin_npu.Record.Laws.{reports, reported}

pub data Action : Type 0 where
  refuse_unavailable refuse_blocked send_masked send_as_is : Action

abbrev pub of_decision : Decision → Action
of_decision blocked = refuse_blocked
of_decision masked = send_masked
of_decision advised = send_as_is
of_decision observed = send_as_is

-- The action for a verdict: the timeout policy comes first, then the decision.
abbrev pub action : {Value : Type 0} → TimeoutPolicy → Inspection Value → Action
action policy verdict =
    if refuses policy verdict.ner_skipped then refuse_unavailable else of_decision verdict.decision

-- Where a request goes: the upstream's address without slashes at its end, the path without the
-- provider's prefix, and the query.
abbrev pub destination : Upstream → Request → Bytes
destination provider r =
    with_query (trim_end_matches b'/' provider.upstream ++ strip_or_whole provider.prefix r.path)
      r.query

-- What is sent upstream is the request with this body: its method, the headers that are passed on,
-- and the destination.
pub record IsPassedOn (provider : Upstream) (r : Request) (outgoing : Bytes) (s : Sent)
    : Type 0 where
  pub method : s.method ≡ r.method
  pub url : s.url ≡ destination provider r
  pub headers : s.headers ≡ forwardable_headers r.headers
  pub body : s.body ≡ outgoing

-- The reply to what the upstream answers: its status, its headers and the advice, and its body as
-- the stream strategy relays it; or that there is no answer.
abbrev pub reply_to : StreamStrategy → Decision → Option Answer → Reply
reply_to strategy decision none = error 502 (codes "upstream request failed")
reply_to strategy decision (some answer) =
    relayed (status_or_502 answer.status) (relayed_headers answer.headers ++ advisory decision)
      (relay_body strategy answer.body)

-- The request is sent upstream with this body, and the upstream's answer is the reply.
abbrev pub IsForwarded :
    {Value : Type 0}
    → World Value
    → StreamStrategy
    → Upstream
    → Request
    → Decision
    → Bytes
    → Handled
    → Type 0
IsForwarded world strategy provider r decision body h =
    (s : Sent) × (h.sent ≡ some s)
    × IsPassedOn provider r body s
    × (h.reply ≡ reply_to strategy decision (world.send s))

-- The masked body goes out encoded; when it cannot be encoded, nothing goes out.
abbrev pub IsMaskedOrNothing :
    {Value : Type 0}
    → World Value
    → StreamStrategy
    → Upstream
    → Request
    → Inspection Value
    → Handled
    → Type 0
IsMaskedOrNothing {Value = Value} world strategy provider r verdict h =
    (masked_body : Value) × (verdict.masked_body ≡ some masked_body)
    × (((encoded : Bytes) × (world.to_vec masked_body ≡ some encoded)
          × IsForwarded world strategy provider r verdict.decision encoded h)
        ⊎ ((h.sent ≡ none)
            × (world.to_vec masked_body ≡ none)
            × (h.reply ≡ error 500 (codes "masking failed"))))

-- The detections recorded report the verdict's findings.
abbrev pub IsRecorded : {Value : Type 0} → Inspection Value → Handled → Type 0
IsRecorded verdict h = reports h.events ≡ map reported verdict.findings

-- The handler's doing `h` carries out an action on a request for a provider with the body `bytes`.
abbrev pub Implements :
    {Value : Type 0}
    → World Value
    → StreamStrategy
    → Upstream
    → Request
    → Bytes
    → Inspection Value
    → Action
    → Handled
    → Type 0
Implements world strategy provider r bytes verdict refuse_unavailable h =
    (h.sent ≡ none)
    × (h.events ≡ [])
    × (h.reply ≡ error 503 (codes "inspection could not complete and policy is fail-closed"))
Implements world strategy provider r bytes verdict refuse_blocked h =
    IsRecorded verdict h
    × (h.sent ≡ none)
    × (h.reply ≡ blocked_response (blocking_kinds verdict.findings))
Implements world strategy provider r bytes verdict send_masked h =
    IsRecorded verdict h × IsMaskedOrNothing world strategy provider r verdict h
Implements world strategy provider r bytes verdict send_as_is h =
    IsRecorded verdict h × IsForwarded world strategy provider r verdict.decision bytes h
