-- ===== src/Gateway/Handler.antt =====
-- `proxy` and `relay` of lib.rs. What the handler does is a value: the audit events emitted, what is
-- sent upstream, and the reply. Logging is left out. axum, reqwest and serde_json are parameters:
-- parsing and encoding JSON, and the upstream's answer.
use sentin_npu.Adapters.{Provider, from_name}
use sentin_npu.Audit.Event.{Event}
use sentin_npu.Config.{
  Config, Upstream, TimeoutPolicy, fail_open, fail_closed, StreamStrategy, passthrough, buffer,
  sliding_window, starts_with, detector_key, provider_for,
}
use sentin_npu.Core.Decision
use sentin_npu.Core.Decision.{Decision, advised, blocked}
use sentin_npu.Core.Device.{Outcome, returns, panics, and_then}
use sentin_npu.Gateway.Headers.{HeaderMap, forwardable_headers, relayed_headers}
use sentin_npu.Gateway.Names.{upstream_host, upstream_model, model_id, trim_end_matches}
use sentin_npu.Inspect.Pipeline.{inspect_request}
use sentin_npu.Inspect.Types.{FindingSummary, Inspection, Skipped, NerService, Extractor, clean}
use sentin_npu.Json.{Json}
use sentin_npu.Prelude.{
  ℕ, Bool, true, false, ◌&&◌, not, List, [], ◌∷◌, ◌++◌, Option, none, some, if◌then◌else◌, between,
  is_empty, drop, length, Bytes, codes,
}
use sentin_npu.Record.{RequestContext, record_request}
use sentin_npu.Stream.{Item, chunk, failed, windowed}

pub record Request : Type 0 where
  pub method : Bytes
  pub path : Bytes
  pub query : Option Bytes
  pub headers : HeaderMap
  -- `none` when the body cannot be read to its end.
  pub body : Option Bytes
  pub client_addr : Option Bytes

-- What is sent upstream, and what comes back.
pub record Sent : Type 0 where
  pub method : Bytes
  pub url : Bytes
  pub headers : HeaderMap
  pub body : Bytes

pub record Answer : Type 0 where
  pub status : ℕ
  pub headers : List (Bytes × Bytes)
  pub body : List Item

-- A gateway error with its status and message, a refusal with the kinds involved, or the relayed
-- answer of the upstream.
pub data Reply : Type 0 where
  error : ℕ → Bytes → Reply
  blocked_response : List Bytes → Reply
  relayed : ℕ → List (Bytes × Bytes) → List Item → Reply

pub record Handled : Type 0 where
  pub events : List Event
  pub sent : Option Sent
  pub reply : Reply

abbrev pub replies : Reply → Handled
replies r = record { events = []; sent = none; reply = r }

-- `blocked_response`: the kinds of the findings that block.
unfoldable pub blocking_kinds : List FindingSummary → List Bytes
unfolding detector_key
blocking_kinds [] = []
blocking_kinds (f ∷ fs) =
    if Decision.eq f.decision blocked
    then detector_key f.kind ∷ blocking_kinds fs
    else blocking_kinds fs

-- `StatusCode::from_u16(…).unwrap_or(BAD_GATEWAY)`
abbrev pub status_or_502 : ℕ → ℕ
status_or_502 s = if between 100 999 s then s else 502

-- `buffered`: the whole body at once, or the error.
abbrev pub buffered : Bytes → List Item → List Item
buffered held [] = chunk held ∷ []
buffered held (failed ∷ items) = failed ∷ []
buffered held (chunk c ∷ items) = buffered (held ++ c) items

unfoldable pub relay_body : StreamStrategy → List Item → List Item
relay_body passthrough items = items
relay_body buffer items = buffered [] items
relay_body sliding_window items = windowed items []

abbrev pub advisory : Decision → List (Bytes × Bytes)
advisory advised = (codes "x-sentin-advisory", codes "sensitive-data-detected") ∷ []
advisory _ = []

unfoldable pub relay : StreamStrategy → Decision → Answer → Reply
relay strategy decision answer =
    relayed (status_or_502 answer.status) (relayed_headers answer.headers ++ advisory decision)
      (relay_body strategy answer.body)

-- `path.strip_prefix(prefix).unwrap_or(path)`
abbrev pub strip_or_whole : Bytes → Bytes → Bytes
strip_or_whole prefix path = if starts_with path prefix then drop (length prefix) path else path

abbrev pub with_query : Bytes → Option Bytes → Bytes
with_query url none = url
with_query url (some query) = url ++ (b'?' ∷ query)

unfoldable pub url_of : Upstream → Request → Bytes
url_of provider r =
    with_query (trim_end_matches b'/' provider.upstream ++ strip_or_whole provider.prefix r.path)
      r.query

-- The timeout policy refuses when layer 2 was skipped and the policy is fail-closed.
abbrev pub refuses : TimeoutPolicy → Option Skipped → Bool
refuses policy none = false
refuses fail_open (some reason) = false
refuses fail_closed (some reason) = true

abbrev pub with_events : List Event → Handled → Handled
with_events es h = record h { events = es }

abbrev pub recorded : Outcome (List Event) → Handled → Outcome Handled
recorded panics h = panics
recorded (returns es) h = returns (with_events es h)

-- What the handler works with beside the request.
pub record World (Value : Type 0) : Type 0 where
  pub from_slice : Bytes → Option Value
  pub to_vec : Value → Option Bytes
  pub send : Sent → Option Answer
  pub now : Bytes
  pub digest : Bytes → Bytes
  pub debug : Skipped → Bytes

module _ (J : Json) (world : World J.Value) (tools : Extractor) (config : Config)
    (ner : Option NerService) (device : Option Bytes) where
  open J use {Value}

  -- The upstream's answer, relayed, or the failure to get one.
  abbrev pub answered : Decision → Option Answer → Reply
  answered decision none = error 502 (codes "upstream request failed")
  answered decision (some answer) = relay config.inspect.stream_strategy decision answer

  -- From `let suffix = …` to the end of `proxy`.
  unfoldable pub forward : Upstream → Request → Decision → Bytes → Handled
  forward provider r decision outgoing =
      let s : Sent = record {
        method = r.method;
        url = url_of provider r;
        headers = forwardable_headers r.headers;
        body = outgoing;
      } in
      record { events = []; sent = some s; reply = answered decision (world.send s) }

  -- A masked body that cannot be encoded is not replaced by the original.
  abbrev pub encoded : Upstream → Request → Decision → Option Bytes → Handled
  encoded provider r decision none = replies (error 500 (codes "masking failed"))
  encoded provider r decision (some bytes) = forward provider r decision bytes

  abbrev pub outgoing : Upstream → Request → Decision → Bytes → Option Value → Handled
  outgoing provider r decision bytes none = forward provider r decision bytes
  outgoing provider r decision bytes (some masked) =
      encoded provider r decision (world.to_vec masked)

  -- Behind the record: a blocked request is refused, a masked one rewritten.
  unfoldable pub decided : Upstream → Request → Bytes → Inspection Value → Handled
  decided provider r bytes verdict =
      if Decision.eq verdict.decision blocked
      then replies (blocked_response (blocking_kinds verdict.findings))
      else outgoing provider r verdict.decision bytes verdict.masked_body

  abbrev pub context_of : Bytes → Upstream → Request → Value → RequestContext
  context_of name provider r body = record {
    target_host = upstream_host provider.upstream;
    model_id = model_id config.inference.model_dir;
    device = device;
    client_addr = r.client_addr;
    upstream_model = upstream_model J body r.path;
    provider = name;
  }

  -- The verdict on a parsed body: the timeout policy, the record, the decision.
  unfoldable pub judged :
      Bytes → Upstream → Request → Bytes → Value → Inspection Value → Outcome Handled
  judged name provider r bytes body verdict =
      if refuses config.inference.timeout_policy verdict.ner_skipped
      then returns
          (replies (error 503 (codes "inspection could not complete and policy is fail-closed")))
      else recorded
          (record_request world.now (world.digest bytes) world.debug
            (context_of name provider r body) verdict)
          (decided provider r bytes verdict)

  -- A panic of the inspection is one of the handler.
  abbrev pub inspected :
      Bytes → Upstream → Request → Bytes → Value → Outcome (Inspection Value) → Outcome Handled
  inspected name provider r bytes body o =
      and_then o (λ verdict. judged name provider r bytes body verdict)

  -- A body with a known schema that parses is inspected, any other forwarded untouched.
  abbrev pub parsed :
      Bytes → Upstream → Request → Bytes → Option Provider → Option Value → Outcome Handled
  parsed name provider r bytes (some schema) (some body) =
      inspected name provider r bytes body (inspect_request J tools config ner schema body)
  parsed name provider r bytes _ _ =
      returns (forward provider r (clean {Value = Value}).decision bytes)

  abbrev pub with_body : Bytes → Upstream → Request → Option Bytes → Outcome Handled
  with_body name provider r none =
      returns (replies (error 400 (codes "could not read request body")))
  with_body name provider r (some bytes) =
      if config.inspect.request && not (is_empty bytes)
      then parsed name provider r bytes (from_name name) (world.from_slice bytes)
      else returns (forward provider r (clean {Value = Value}).decision bytes)

  abbrev pub routed : Request → Option (Bytes × Upstream) → Outcome Handled
  routed r none = returns (replies (error 404 (codes "no provider configured for this path")))
  routed r (some (name, provider)) = with_body name provider r r.body

  -- `proxy`
  unfoldable pub proxy : Request → Outcome Handled
  unfolding judged
  proxy r = routed r (provider_for config r.path)
