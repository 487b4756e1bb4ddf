-- ===== src/Proxy/Endpoint.antt =====
-- `proxy_json_endpoint`: a request from its arrival to its response, or to the stream that answers
-- it.
use vllm_source_gateway.Base.{
  ℕ, zero, add_ℤ, String, [], ◌∷◌, Bool, true, false, Option, none, some, leb, length, string_eq,
  if◌then◌else◌,
}
use vllm_source_gateway.Dict.{get_or}
use vllm_source_gateway.Text.{Text, codes}
use vllm_source_gateway.Json.{
  loads_value, decode_error, value_error, recursion_error, Fields, get_field, is_true,
}
use vllm_source_gateway.Http.{ok, raises, crashes, cancels, unfinished, and_then}
use vllm_source_gateway.Metrics.{record_source_resolution}
use vllm_source_gateway.Usage.{UsageTokens, UsageExtractor}
use vllm_source_gateway.Source.{SourceResolutionResult}
use vllm_source_gateway.RequestMetrics.{
  set_request_metrics_context, set_request_metrics_model, set_request_metrics_failure_origin,
}
use vllm_source_gateway.Admission.Controller.{AdmissionLease}
use vllm_source_gateway.Admission.Shape.{check_request_shape}
use vllm_source_gateway.Admission.Acquire.{acquire, release}
use vllm_source_gateway.Admission.Accounting.{record_retry_event, record_tokens}
use vllm_source_gateway.Proxy.State.{
  Gateway, World, ProxyConfig, Request, Handled, UpstreamResponse, with_metrics, with_request,
  with_admission, on_admission,
}
use vllm_source_gateway.Proxy.Body.{
  enforce_source_resolution_policy, read_json_request_body, parse_json_payload, ensure_known_model,
  header_of,
}
use vllm_source_gateway.Proxy.Upstream.{select_upstream, record_accounting, record_usage}
use vllm_source_gateway.Proxy.Failover.{Call, Answer, attempt}

-- What the caller gets: the upstream's answer with its media type, or a stream over it, made for a call, which holds
-- the lease until it ends.
pub data Reply : Type 0 where
  response : UpstreamResponse → (media_type : Option Text) → Reply
  stream : Call → UpstreamResponse → Option AdmissionLease → Reply

-- The route that a request came by.
pub record Route : Type 0 where
  pub endpoint : String
  pub upstream_path : String
  pub usage_extractor : UsageExtractor

-- The first selection and the attempts. A pool's length is enough fuel.
unfoldable pub contact : World → Call → Gateway → Handled Answer
unfolding select_upstream attempt
contact w call g =
    let fuel = length (get_or g.routing.model_to_upstreams call.model_name []) in
    and_then (select_upstream g call.model_name [])
      λ u s. attempt w call fuel zero (u.name ∷ []) u s

-- if status_code >= 400: ...; if status_code >= 500: ...
unfoldable pub note_failure : World → Call → (status_code : ℕ) → Gateway → Gateway
unfolding with_request with_admission record_retry_event set_request_metrics_failure_origin
note_failure w call status_code g =
    let noted =
      if leb 400 status_code
      then with_request g (λ s. set_request_metrics_failure_origin s "upstream")
      else g in
    if leb 500 status_code
    then with_admission noted
        (record_retry_event noted.admission w.retried_at call.department call.model_name)
    else noted

-- if recorded_usage is not None: admission_controller.record_tokens(...)
unfoldable pub charge : World → Call → UsageTokens → Gateway → Gateway
unfolding record_tokens with_admission
charge w call none g = g
charge w call (some (prompt_tokens, generation_tokens)) g = with_admission g (
    record_tokens g.admission w.recorded_at call.department call.model_name
      (add_ℤ prompt_tokens generation_tokens))

unfoldable pub account : World → Call → (status_code : ℕ) → UsageTokens → Gateway → Gateway
unfolding record_usage with_metrics charge
account w call status_code usage g =
    let (recorded, m) =
      record_usage g.admission.metrics call.department call.model_name call.endpoint status_code
        usage in
    charge w call recorded (with_metrics g (λ _. m))

abbrev pub content_type : UpstreamResponse → Option Text
content_type r = header_of (codes "content-type") r.headers

-- headers.get("content-type", "application/json")
abbrev pub media_type : UpstreamResponse → Option Text
media_type r = elim (content_type r) [ none ↦ some (codes "application/json") | some t ↦ some t ]

-- The answer and the media type of the response made from it.
abbrev pub Plain : Type 0
Plain = UpstreamResponse × Option Text

-- The `except ValueError` of `response.json()`.
unfoldable pub answer_unparsed : Call → UpstreamResponse → Gateway → Handled Plain
unfolding with_metrics record_accounting
answer_unparsed call r h = (
  ok (r, content_type r),
  with_metrics h
      (λ m. record_accounting m call.department call.model_name call.endpoint "parse_error"),
)

-- The body of the non-streaming branch after the answer.
unfoldable pub answer_json : World → Call → UsageExtractor → Answer → Gateway → Handled Plain
unfolding note_failure account answer_unparsed
answer_json w call usage_extractor (r, attempted) g =
    let h = note_failure w call r.status_code g in
    elim (w.json_loads r.content) [
      | recursion_error ↦ (crashes, h)
      | decode_error ↦ answer_unparsed call r h
      | value_error ↦ answer_unparsed call r h
      | loads_value payload ↦ elim (usage_extractor payload) [
        | none ↦ (crashes, h)
        | some usage ↦ (ok (r, media_type r), account w call r.status_code usage h)
      ]
    ]

abbrev pub release_lease : Gateway → Option AdmissionLease → Gateway
release_lease g lease = with_admission g (release g.admission lease)

-- `finally: admission_controller.release(admission_lease)`
unfoldable pub finally_release : {A : Type 0} → Option AdmissionLease → Handled A → Handled A
unfolding release with_admission
finally_release lease (result, g) = (result, release_lease g lease)

-- `except Exception: admission_controller.release(admission_lease); raise`, which a CancelledError
-- passes by.
unfoldable pub release_on_exception : Option AdmissionLease → Handled Reply → Handled Reply
unfolding release with_admission
release_on_exception lease (ok reply, g) = (ok reply, g)
release_on_exception lease (raises x, g) = (raises x, release_lease g lease)
release_on_exception lease (crashes, g) = (crashes, release_lease g lease)
release_on_exception lease (cancels, g) = (cancels, g)
release_on_exception lease (unfinished, g) = (unfinished, release_lease g lease)

unfoldable pub proxy_streaming : World → Call → Option AdmissionLease → Gateway → Handled Reply
unfolding release_on_exception contact note_failure
proxy_streaming w call lease g = release_on_exception lease (
    and_then (contact w call g)
      λ answer s. (ok (stream call (answer.0) lease), note_failure w call (answer.0).status_code s))

unfoldable pub proxy_json :
    World → Call → UsageExtractor → Option AdmissionLease → Gateway → Handled Reply
unfolding finally_release contact answer_json
proxy_json w call usage_extractor lease g =
    and_then
      (finally_release lease (and_then (contact w call g) (answer_json w call usage_extractor)))
      λ plain s. (ok (response (plain.0) (plain.1)), s)

-- payload.get("stream") is True
abbrev pub wants_stream : Fields → Bool
wants_stream payload = elim (get_field "stream" payload) [ none ↦ false | some v ↦ is_true v ]

abbrev pub call_of : Request → Route → (department model_name : String) → Fields → Bool → Call
call_of request route department model_name payload observes = record {
  request = request;
  department = department;
  model_name = model_name;
  endpoint = route.endpoint;
  upstream_path = route.upstream_path;
  payload = payload;
  observes_duration = observes;
}

-- What follows `acquire`.
unfoldable pub serve :
    World
    → Request
    → Route
    → (department model_name : String) → Fields
    → Option AdmissionLease
    → Gateway
    → Handled Reply
unfolding proxy_streaming proxy_json
serve w request route department model_name payload lease g =
    let call = call_of request route department model_name payload in
    if wants_stream payload
    then proxy_streaming w (call false) lease g
    else proxy_json w (call true) route.usage_extractor lease g

-- From the parsed payload on.
unfoldable pub admit_and_serve :
    World
    → Request
    → Route
    → (department : String) → (body_size : ℕ) → (payload : Fields) (model_name : String) → Gateway
    → Handled Reply
unfolding ensure_known_model with_request set_request_metrics_model on_admission check_request_shape
    acquire serve
admit_and_serve w request route department body_size payload model_name g =
    and_then (ensure_known_model g model_name) λ _ known.
      let named = with_request known (λ s. set_request_metrics_model s model_name) in
      and_then
        (on_admission named (
          check_request_shape named.admission department model_name route.endpoint body_size
            payload))
        λ shaped s.
          and_then
            (on_admission s
              (acquire s.admission w.acquired_at department model_name route.endpoint))
            λ lease t. serve w request route department model_name shaped lease t

-- set_request_metrics_context and record_source_resolution
unfoldable pub note_source : SourceResolutionResult → String → Gateway → Gateway
unfolding with_request with_metrics set_request_metrics_context record_source_resolution
note_source source endpoint g =
    with_metrics (with_request g (λ s. set_request_metrics_context s source.department endpoint))
      λ m. record_source_resolution m source.department source.resolution_source

unfoldable pub proxy_json_endpoint :
    World → ProxyConfig → Request → SourceResolutionResult → Route → Gateway → Handled Reply
unfolding note_source enforce_source_resolution_policy read_json_request_body parse_json_payload
    admit_and_serve
proxy_json_endpoint w config request source route g =
    and_then (enforce_source_resolution_policy config source (note_source source route.endpoint g))
      λ _ s. and_then (read_json_request_body w config request s) λ body t.
        and_then (parse_json_payload t (body.0)) λ parsed u.
          admit_and_serve w request route source.department (body.1) (parsed.0) (parsed.1) u
