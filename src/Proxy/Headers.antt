-- ===== src/Proxy/Headers.antt =====
-- Which headers go to the upstream and which come back.
use vllm_source_gateway.Base.{
  String, List, [], ◌∷◌, ◌++◌, Bool, true, false, not, ◌==◌, ◌&&◌, Option, none, some, any, beq,
  if◌then◌else◌,
}
use vllm_source_gateway.Dict.{Dict, empty, put}
use vllm_source_gateway.Text.{Text, codes, text_eq, lower}

-- name in a set of names
abbrev pub is_in : List Text → Text → Bool
is_in names name = any (beq name) names

abbrev pub hop_by_hop_headers : List Text
hop_by_hop_headers =
    codes "connection"
    ∷ codes "keep-alive"
    ∷ codes "proxy-authenticate"
    ∷ codes "proxy-authorization"
    ∷ codes "te"
    ∷ codes "trailer"
    ∷ codes "transfer-encoding"
    ∷ codes "upgrade"
    ∷ []

abbrev pub allowed_upstream_headers : List Text
allowed_upstream_headers =
    codes "accept"
    ∷ codes "accept-language"
    ∷ codes "content-type"
    ∷ codes "user-agent"
    ∷ codes "openai-organization"
    ∷ codes "openai-project"
    ∷ codes "openai-beta"
    ∷ codes "idempotency-key"
    ∷ codes "traceparent"
    ∷ codes "tracestate"
    ∷ codes "baggage"
    ∷ codes "x-request-id"
    ∷ codes "x-correlation-id"
    ∷ codes "x-trace-id"
    ∷ codes "x-openai-client-user-agent"
    ∷ []

abbrev pub blocked_upstream_headers : List Text
blocked_upstream_headers =
    hop_by_hop_headers
    ++ codes "authorization"
      ∷ codes "accept-encoding"
      ∷ codes "content-length"
      ∷ codes "cookie"
      ∷ codes "host"
      ∷ codes "x-api-key"
      ∷ []

abbrev pub excluded_downstream_headers : List Text
excluded_downstream_headers =
    hop_by_hop_headers ++ codes "content-encoding" ∷ codes "content-length" ∷ []

-- s.startswith(prefix), the prefix first
abbrev pub starts_with : Text → Text → Bool
starts_with [] s = true
starts_with (a ∷ prefix) [] = false
starts_with (a ∷ prefix) (b ∷ s) = a == b && starts_with prefix s

unfoldable pub should_forward_upstream_header : Text → Bool
should_forward_upstream_header header_name =
    let normalized = lower header_name in
    if is_in blocked_upstream_headers normalized
    then false
    else if is_in allowed_upstream_headers normalized
    then true
    else starts_with (codes "x-stainless-") normalized

-- The dict comprehension: the pairs whose name passes the test, a later one replacing an earlier.
unfoldable pub filter_headers : (Text → Bool) → List (Text × Text) → Dict Text Text → Dict Text Text
filter_headers test [] d = d
filter_headers test ((key, value) ∷ headers) d =
    if test key
    then filter_headers test headers (put d key value)
    else filter_headers test headers d

unfoldable pub build_upstream_headers :
    List (Text × Text) → (authorization_token : Option String) → Dict Text Text
unfolding filter_headers should_forward_upstream_header
build_upstream_headers headers authorization_token =
    let forwarded = filter_headers should_forward_upstream_header headers empty in
    elim authorization_token [
      | none ↦ forwarded
      | some token ↦ put forwarded (codes "authorization") (codes "Bearer " ++ codes token)
    ]

unfoldable pub build_downstream_headers : List (Text × Text) → Dict Text Text
unfolding filter_headers
build_downstream_headers headers =
    filter_headers (λ key. not (is_in excluded_downstream_headers (lower key))) headers empty
