-- ===== src/Tests/GatewayTests.antt =====
-- One request through the whole handler, and headers that repeat.
use sentin_npu.Adapters
use sentin_npu.Adapters.{open_ai}
use sentin_npu.Config
use sentin_npu.Config.{Config, Upstream}
use sentin_npu.Core.DataKind
use sentin_npu.Core.Decision.{masked}
use sentin_npu.Core.Device.{returns}
use sentin_npu.Gateway.Handler.{Request, Handled, World, proxy}
use sentin_npu.Gateway.Headers.{
  HeaderMap, contains, pairs, forwardable_headers, loggable_header_names, is_dropped,
}
use sentin_npu.Gateway.Headers.Laws.{
  lookup, last_value, lookup-forwardable_headers, secret_headers-contains,
}
use mathlib.Core.Path.{subst}
use mathlib.Core.Option.{some-injective}
use sentin_npu.Gateway.Total.{proxy-returns}
use sentin_npu.Core.Ceiling.{IsDeclared}
use sentin_npu.Inspect.Consistent.{AnswersDeclared, entities}
use sentin_npu.Inspect.Total.{FindsAligned, inspect_request-returns}
use sentin_npu.Tests.InspectTests.{somewhere-AnswersPlaced, body-FindsAligned}
use sentin_npu.Json.{Pointer}
use sentin_npu.Inspect.Pipeline.{inspect_request}
use sentin_npu.Inspect.Types.{Inspection, Skipped}
use sentin_npu.Json.Tree.{Tree, tree_json}
use sentin_npu.Prelude.{
  Bool, All, true, inr, ◌≡◌, refl, [], ◌∷◌, none, some, arith, false, if◌then◌else◌, Bytes, codes,
}
use sentin_npu.Stream.{chunk}
use sentin_npu.Tests.Samples.{plain, config_with, somebody, somewhere, body}

abbrev upstream : Upstream
upstream = record { prefix = codes "/openai"; upstream = codes "https://api.openai.com/" }

abbrev config : Config
config = record (config_with masked) { providers = (codes "openai", upstream) ∷ [] }

abbrev debug : Skipped → Bytes
debug s = codes "TimedOut"

-- A parser that knows one body, and an upstream that answers every request.
abbrev world : World Tree
world = record {
  from_slice = λ bytes. some body;
  to_vec = λ v. some (codes "encoded");
  send = λ s. some (record { status = 200; headers = []; body = chunk (codes "{}") ∷ [] });
  now = codes "now";
  digest = λ bytes. codes "sha256:0";
  debug = debug;
}

abbrev request : Request
request = record {
  method = codes "POST";
  path = codes "/openai/v1/chat/completions";
  query = none;
  headers = [];
  body = some (codes "{}");
  client_addr = some (codes "10.0.0.7");
}

first_five-IsDeclared :
    (p : Pointer) (s : Bytes) (b : Bool)
    → All IsDeclared (entities (if b then somebody p s else inr []))
unfolding DataKind.layer DataKind.evidence
first_five-IsDeclared p s true = ((refl, refl), tt)
first_five-IsDeclared p s false = tt

somewhere-AnswersDeclared : AnswersDeclared (some somewhere)
somewhere-AnswersDeclared p s = first_five-IsDeclared p s _

-- Inspecting the body returns.
abbrev verdict :
    (i : Inspection Tree) × (inspect_request tree_json plain config (some somewhere) open_ai body
      ≡ returns i)
verdict =
    inspect_request-returns tree_json plain config (some somewhere) somewhere-AnswersPlaced open_ai
      body (body-FindsAligned open_ai)

abbrev keys : HeaderMap
keys = (codes "x-api-key", codes "first" ∷ codes "second" ∷ []) ∷ []

lookup-forwardable_headers_example : lookup (forwardable_headers keys) (codes "x-api-key") ≡ (
    if is_dropped (codes "x-api-key") then [] else last_value (pairs keys) (codes "x-api-key") [])
lookup-forwardable_headers_example = lookup-forwardable_headers keys (codes "x-api-key")

secret_headers-contains_example :
    (lookup (forwardable_headers keys) (codes "x-api-key")
      ≡ last_value (pairs keys) (codes "x-api-key") [])
    × (contains (loggable_header_names keys) (codes "x-api-key") ≡ false)
secret_headers-contains_example = secret_headers-contains keys (codes "x-api-key") refl

known_body :
    (schema : Adapters.Provider) (v : Tree)
    → some body ≡ some v
    → All
        (λ p. FindsAligned (Adapters.read_text tree_json v p))
        (Adapters.text_pointers tree_json schema v)
known_body schema v e =
    subst
      (λ v.
        All (λ p. FindsAligned (Adapters.read_text tree_json v p))
          (Adapters.text_pointers tree_json schema v))
      (some-injective body v e) (body-FindsAligned schema)

proxy-returns_example :
    (h : Handled) × (proxy tree_json world plain config
        (some somewhere)
        (some (codes "NPU"))
        request
      ≡ returns h)
proxy-returns_example =
    proxy-returns tree_json world plain config (some somewhere) (some (codes "NPU"))
      somewhere-AnswersDeclared (ground arith) somewhere-AnswersPlaced request
      (λ schema bytes v read parses. known_body schema v parses)
