-- ===== src/Proxy/Body.antt =====
-- The checks on a request before admission: its source, its body, its model.
use Prim.Native.String.{◌++◌ as append}
use vllm_source_gateway.Base.{
  ℕ, pos, String, List, [], ◌∷◌, Bool, false, not, Option, none, some, ltb, ltb_ℤ, beq, string_eq,
  length, if◌then◌else◌, is_some,
}
use vllm_source_gateway.Text.{Text, codes, text_eq, lower, strip}
use vllm_source_gateway.Json.{
  loads_value, decode_error, value_error, recursion_error, Value, Fields, get_field, as_dict,
  as_str,
}
use vllm_source_gateway.Http.{ok, raises, crashes, plain_error}
use vllm_source_gateway.Metrics.{record_token_accounting}
use vllm_source_gateway.Source.{SourceResolutionResult, is_empty}
use vllm_source_gateway.Routing.Registry.{get_model_upstreams, RoutingError, done, fails}
use vllm_source_gateway.Proxy.State.{
  Gateway, World, ProxyConfig, Request, Handled, with_metrics, await, decimal,
}

-- `_raise_http_error` with an accounting status.
unfoldable pub raise_accounted :
    {A : Type 0}
    → Gateway
    → (endpoint : String) (status_code : ℕ) (detail accounting : String) → Handled A
unfolding with_metrics record_token_accounting
raise_accounted g endpoint status_code detail accounting = (
  raises (plain_error status_code detail),
  with_metrics g (λ m. record_token_accounting m endpoint accounting),
)

-- `_raise_http_error` without one.
abbrev pub raise_plain : {A : Type 0} → Gateway → (status_code : ℕ) (detail : String) → Handled A
raise_plain g status_code detail = (raises (plain_error status_code detail), g)

-- The header of that name, in lower case as Starlette keeps the names: the first one counts.
abbrev pub header_of : Text → List (Text × Text) → Option Text
header_of name [] = none
header_of name ((key, value) ∷ headers) =
    if beq (lower key) name then some value else header_of name headers

unfoldable pub content_length_exceeds_limit : World → Request → (max_request_body_bytes : ℕ) → Bool
content_length_exceeds_limit w request max_request_body_bytes =
    elim (header_of (codes "content-length") request.headers) [
      | none ↦ false
      | some content_length ↦ elim (w.parse_int content_length) [
        | none ↦ false
        | some parsed ↦ ltb_ℤ (pos max_request_body_bytes) parsed
      ]
    ]

unfoldable pub request_body_too_large :
    {A : Type 0} → Gateway → (max_request_body_bytes : ℕ) → Handled A
unfolding decimal
request_body_too_large g max_request_body_bytes =
    raise_plain g 413
      (append "request body too large; max_request_body_bytes=" (decimal max_request_body_bytes))

-- The checks on a body that was read.
unfoldable pub load_body : World → ProxyConfig → Gateway → List ℕ → Handled (Value × ℕ)
unfolding request_body_too_large
load_body w config g request_body =
    if ltb config.max_request_body_bytes (length request_body)
    then request_body_too_large g config.max_request_body_bytes
    else elim (w.json_loads request_body) [
      | decode_error ↦ raise_plain g 400 "invalid json body"
      | value_error ↦ raise_plain g 400 "invalid json body"
      | recursion_error ↦ (crashes, g)
      | loads_value value ↦ (ok (value, length request_body), g)
    ]

unfoldable pub read_json_request_body :
    World → ProxyConfig → Request → Gateway → Handled (Value × ℕ)
unfolding content_length_exceeds_limit request_body_too_large load_body await
read_json_request_body w config request g =
    if content_length_exceeds_limit w request config.max_request_body_bytes
    then request_body_too_large g config.max_request_body_bytes
    else elim request.body [
      | none ↦ raise_plain (await w 0 g) 400 "invalid request body"
      | some request_body ↦ load_body w config (await w 0 g) request_body
    ]

-- The model of a payload, where it is a string that is not blank.
unfoldable pub model_of : Fields → Option String
unfolding strip
model_of payload = elim (get_field "model" payload) [
  | none ↦ none
  | some value ↦ elim (as_str value) [
    | none ↦ none
    | some model_name ↦ if is_empty (strip (codes model_name)) then none else some model_name
  ]
]

unfoldable pub parse_json_payload : Gateway → Value → Handled (Fields × String)
unfolding model_of
parse_json_payload g payload = elim (as_dict payload) [
  | none ↦ raise_plain g 400 "request body must be a json object"
  | some fields ↦ elim (model_of fields) [
    | none ↦ raise_plain g 422 "missing model"
    | some model_name ↦ (ok (fields, model_name), g)
  ]
]

unfoldable pub enforce_source_resolution_policy :
    ProxyConfig → SourceResolutionResult → Gateway → Handled (Unit {0})
enforce_source_resolution_policy config source_resolution g =
    if not config.reject_unknown_api_keys
    then (ok tt, g)
    else if not (beq source_resolution.resolution_source "unknown")
    then (ok tt, g)
    else raise_plain g 401
        (if is_some source_resolution.api_key then "unknown api key" else "missing api key")

-- The HTTPException for an exception of the registry.
unfoldable pub raise_routing_error : {A : Type 0} → Gateway → RoutingError → Handled A
raise_routing_error g (RoutingError.unknown_model model_name) =
    raise_plain g 404 (append "unknown model '" (append model_name "'"))
raise_routing_error g (RoutingError.no_healthy_upstream model_name) =
    raise_plain g 503 (append "no healthy upstream available for model '" (append model_name "'"))
raise_routing_error g _ = (crashes, g)

unfoldable pub ensure_known_model : Gateway → (model_name : String) → Handled (Unit {0})
unfolding raise_routing_error get_model_upstreams
ensure_known_model g model_name = elim (get_model_upstreams g.routing model_name) [
  | done pool ↦ (ok tt, g)
  | fails error ↦ raise_routing_error g error
]
