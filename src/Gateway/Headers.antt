-- ===== src/Gateway/Headers.antt =====
-- The headers that are relayed and those that may be logged. A `HeaderMap` is the list of its names,
-- each with its values in order; `insert` replaces what a name had.
pub mod Laws
use sentin_npu.Config.{text_eq}
use sentin_npu.Prelude.{
  Bool, not, ◌||◌, List, [], ◌∷◌, ◌++◌, map, if◌then◌else◌, any, Bytes, codes, to_ascii_lowercase,
}

abbrev pub HeaderMap : Type 0
HeaderMap = List (Bytes × List Bytes)

abbrev pub contains : List Bytes → Bytes → Bool
contains names name = any (λ n. text_eq n name) names

-- Headers that belong to one hop.
abbrev pub hop_by_hop : List Bytes
hop_by_hop =
    codes "connection"
    ∷ codes "keep-alive"
    ∷ codes "proxy-authenticate"
    ∷ codes "proxy-authorization"
    ∷ codes "te"
    ∷ codes "trailers"
    ∷ codes "transfer-encoding"
    ∷ codes "upgrade"
    ∷ []

abbrev pub secret_headers : List Bytes
secret_headers = codes "authorization" ∷ codes "x-api-key" ∷ codes "x-goog-api-key" ∷ []

abbrev pub lower : Bytes → Bytes
lower = map to_ascii_lowercase

-- `for (name, value) in headers`
abbrev pub pairs_of : Bytes → List Bytes → List (Bytes × Bytes)
pairs_of name [] = []
pairs_of name (v ∷ vs) = (name, v) ∷ pairs_of name vs

unfoldable pub pairs : HeaderMap → List (Bytes × Bytes)
pairs [] = []
pairs ((name, values) ∷ hs) = pairs_of name values ++ pairs hs

-- `HeaderMap::insert` of one value
unfoldable pub insert : Bytes → Bytes → HeaderMap → HeaderMap
insert name value [] = (name, value ∷ []) ∷ []
insert name value ((n, vs) ∷ hs) =
    if text_eq n name then (n, value ∷ []) ∷ hs else (n, vs) ∷ insert name value hs

abbrev pub is_dropped : Bytes → Bool
is_dropped name =
    contains hop_by_hop (lower name)
    || (text_eq (lower name) (codes "host") || text_eq (lower name) (codes "content-length"))

-- The loop of `forwardable_headers`.
unfoldable pub forward_loop : List (Bytes × Bytes) → HeaderMap → HeaderMap
unfolding insert
forward_loop [] out = out
forward_loop ((name, value) ∷ rest) out =
    if is_dropped name then forward_loop rest out else forward_loop rest (insert name value out)

unfoldable pub forwardable_headers : HeaderMap → HeaderMap
unfolding forward_loop pairs
forwardable_headers headers = forward_loop (pairs headers) []

-- `filter` over the keys, in lower case.
unfoldable pub loggable : List Bytes → List Bytes
loggable [] = []
loggable (name ∷ names) =
    if not (contains secret_headers name) then name ∷ loggable names else loggable names

unfoldable pub loggable_header_names : HeaderMap → List Bytes
unfolding loggable
loggable_header_names headers = loggable (map (λ h. lower h.0) headers)

-- The headers of the upstream's response that `relay` passes on, one by one.
unfoldable pub relayed_headers : List (Bytes × Bytes) → List (Bytes × Bytes)
relayed_headers [] = []
relayed_headers ((name, value) ∷ rest) =
    if contains hop_by_hop (lower name) || text_eq (lower name) (codes "content-length")
    then relayed_headers rest
    else (name, value) ∷ relayed_headers rest
