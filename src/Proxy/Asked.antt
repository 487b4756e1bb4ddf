-- ===== src/Proxy/Asked.antt =====
-- Whether a request asks for a stream, from its body to the payload that is served.
use vllm_source_gateway.Base.{
  sym, ◌≡◌, Bool, arith, none, some, ℕ, String, refl, Option, not, if_rule, option_rule, ltb,
  length, List, beq, string_eq, false,
}
use vllm_source_gateway.Json.{
  loads_value, decode_error, value_error, recursion_error, loads_rule, Value, Fields, as_dict,
}
use vllm_source_gateway.Http.{Outcome, OnOk, OnOk-trivial, ok, raises, crashes, cancels, unfinished}
use vllm_source_gateway.Source.{SourceResolutionResult}
use vllm_source_gateway.Admission.Controller.{Controller}
use vllm_source_gateway.Admission.Shape.{check_request_shape}
use vllm_source_gateway.Proxy.State.{
  Gateway, World, ProxyConfig, Request, Handled, await, on_admission,
}
use vllm_source_gateway.Proxy.Body.{
  enforce_source_resolution_policy, read_json_request_body, load_body, parse_json_payload, model_of,
  ensure_known_model, request_body_too_large, content_length_exceeds_limit,
}
use vllm_source_gateway.Proxy.Endpoint.{wants_stream}
use vllm_source_gateway.Dict.{get}
use vllm_source_gateway.Json.{is_true, int, set_field, get_field-set_field}
use vllm_source_gateway.Admission.Config.{RequestShapeLimitConfig}
use vllm_source_gateway.Admission.Shape.{
  check_limit, reject_shape, body_too_large, bad_output_cap, bad_n, with_default_cap, output_key,
  extract_valid_max_output_tokens,
}
use vllm_source_gateway.Base.{pos, ap}

-- Whether the body of a request asks for a stream.
abbrev pub asks_in : Value → Bool
asks_in v = elim (as_dict v) [ none ↦ false | some fields ↦ wants_stream fields ]

abbrev pub asks_for_stream : World → Request → Bool
asks_for_stream w request = elim request.body [
  | none ↦ false
  | some body ↦ elim (w.json_loads body) [
    | loads_value v ↦ asks_in v
    | decode_error ↦ false
    | value_error ↦ false
    | recursion_error ↦ false
  ]
]

-- What is read is the body.
load_body-tells :
    (w : World) (config : ProxyConfig) (g : Gateway) (b : Bool) (body : List ℕ)
    → ((v : Value) → w.json_loads body ≡ loads_value v → b ≡ asks_in v)
    → OnOk (λ r. b ≡ asks_in r.0) (load_body w config g body)
unfolding load_body request_body_too_large
load_body-tells w config g b body asked =
    let P : Handled (Value × ℕ) → Type 0 = OnOk λ r. b ≡ asks_in r.0 in
    if_rule P (ltb config.max_request_body_bytes (length body)) _ _ (λ _. tt)
      λ _. loads_rule P (w.json_loads body) _ _ _ _ asked (λ _. tt) (λ _. tt) λ _. tt

pub read-tells :
    (w : World) (config : ProxyConfig) (request : Request) (g : Gateway)
    → OnOk
        (λ r. asks_for_stream w request ≡ asks_in r.0)
        (read_json_request_body w config request g)
unfolding read_json_request_body request_body_too_large
read-tells w config request g =
    let P : Handled (Value × ℕ) → Type 0 = OnOk λ r. asks_for_stream w request ≡ asks_in r.0 in
    if_rule P (content_length_exceeds_limit w request config.max_request_body_bytes) _ _ (λ _. tt)
      λ _.
        option_rule P request.body _ _ (λ _. tt)
          λ body has_body.
            load_body-tells w config (await w 0 g) (asks_for_stream w request) body
              λ v e. ground (arith, has_body, e)

pub parse-tells :
    (g : Gateway) (payload : Value)
    → OnOk (λ r. asks_in payload ≡ wants_stream r.0) (parse_json_payload g payload)
unfolding parse_json_payload
parse-tells g payload =
    let P : Handled (Fields × String) → Type 0 = OnOk λ r. asks_in payload ≡ wants_stream r.0 in
    option_rule P (as_dict payload) _ _ (λ _. tt)
      λ fields is_dict. option_rule P (model_of fields) _ _ (λ _. tt) λ m _. ground (arith, is_dict)

pub ensure_known_model-tells :
    (g : Gateway) (m : String) → OnOk (λ (_ : Unit {0}). Unit {0}) (ensure_known_model g m)
ensure_known_model-tells g m = OnOk-trivial (ensure_known_model g m)

pub enforce-tells :
    (config : ProxyConfig) (source : SourceResolutionResult) (g : Gateway)
    → OnOk (λ (_ : Unit {0}). Unit {0}) (enforce_source_resolution_policy config source g)
enforce-tells config source g = OnOk-trivial (enforce_source_resolution_policy config source g)

-- The checked payload asks for a stream as the payload does.
pub shape-tells :
    (g : Gateway) (payload : Fields) (o : Outcome Controller Fields)
    → OnOk (λ shaped. wants_stream payload ≡ wants_stream shaped) o
    → OnOk (λ shaped. wants_stream payload ≡ wants_stream shaped) (on_admission g o)
unfolding on_admission
shape-tells g payload (ok shaped, c) told = told
shape-tells g payload (raises x, c) told = tt
shape-tells g payload (crashes, c) told = tt
shape-tells g payload (cancels, c) told = tt
shape-tells g payload (unfinished, c) told = tt

with_default_cap-stream :
    (limit : RequestShapeLimitConfig) (endpoint : String) (has_cap : Bool) (payload : Fields)
    → wants_stream payload ≡ wants_stream (with_default_cap limit endpoint has_cap payload)
unfolding with_default_cap output_key
with_default_cap-stream limit endpoint has_cap payload =
    let asks : Option Value → Bool = λ o. elim o [ none ↦ false | some v ↦ is_true v ] in
    let P : Fields → Type 0 = λ fs. wants_stream payload ≡ wants_stream fs in
    option_rule P limit.max_output_tokens _ _ (λ _. refl)
      λ most _.
        if_rule P has_cap _ _ (λ _. refl)
          λ _.
            if_rule (λ (k : String). P (set_field k (int (pos most)) payload))
              (beq endpoint "responses") _ _
              (λ _.
                ap asks
                  (sym (get_field-set_field "max_output_tokens" "stream" (int (pos most)) payload)))
              λ _.
                ap asks (sym (get_field-set_field "max_tokens" "stream" (int (pos most)) payload))

-- The check of the shape leaves it to the payload whether a stream is asked for.
pub check_request_shape-stream :
    (c : Controller) (d m e : String) (body_size : ℕ) (payload : Fields)
    → OnOk
        (λ shaped. wants_stream payload ≡ wants_stream shaped)
        (check_request_shape c d m e body_size payload)
unfolding check_request_shape check_limit reject_shape
check_request_shape-stream c d m e body_size payload =
    let P : Outcome Controller Fields → Type 0 =
      OnOk λ shaped. wants_stream payload ≡ wants_stream shaped in
    if_rule P (not c.config.enabled) _ _ (λ _. refl)
      λ _.
        option_rule P (get c.config.request_shape_limits m) _ _ (λ _. refl)
          λ limit _.
            if_rule P (body_too_large limit body_size) _ _ (λ _. tt)
              λ _.
                let (has_cap, cap) = extract_valid_max_output_tokens payload in
                if_rule P (bad_output_cap limit has_cap cap) _ _ (λ _. tt)
                  λ _.
                    if_rule P (bad_n limit payload) _ _ (λ _. tt)
                      λ _. with_default_cap-stream limit e has_cap payload
