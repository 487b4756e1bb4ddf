-- ===== src/Metrics.antt =====
-- src/vllm_source_gateway/metrics.py. The metric objects are those of prometheus_client: what the
-- gateway does with them is the sequence of its calls `.labels(...).inc()`, `.dec()`, `.observe()`,
-- one `Sample` for each. Durations are in ticks, like every time.
pub mod Inflight
use vllm_source_gateway.Base.{
  ℕ, ℤ, pos, String, List, ◌∷◌, ◌&&◌, leb, ltb, leb_ℤ, to_nat, if◌then◌else◌,
}
use vllm_source_gateway.Text.{Text, upper}

-- A call on a metric object, by the name of its field, with its label values in order.
pub data Sample : Type 0 where
  http_requests_total : String → String → Text → String → Sample
  request_duration_seconds : String → String → Text → ℕ → Sample
  model_http_requests_total : String → String → String → Text → String → Sample
  model_request_duration_seconds : String → String → String → Text → ℕ → Sample
  http_request_failures_total : String → String → Text → String → String → Sample
  prompt_tokens_total : String → String → ℕ → Sample
  generation_tokens_total : String → String → ℕ → Sample
  source_resolution_total : String → String → Sample
  token_accounting_total : String → String → Sample
  model_token_accounting_total : String → String → String → String → Sample
  admission_rejections_total : String → String → String → Sample
  inflight_requests_inc : String → String → String → Sample
  inflight_requests_dec : String → String → String → Sample
  token_budget_rejections_total : String → String → Sample
  retry_guard_open_total : String → String → Sample
  upstream_request_duration_seconds : String → String → String → ℕ → Sample
  stream_first_chunk_seconds : String → String → String → ℕ → Sample
  upstream_selections_total : String → String → Sample

-- The calls so far, the latest first.
abbrev pub GatewayMetrics : Type 0
GatewayMetrics = List Sample

unfoldable pub status_class : ℕ → String
status_class code =
    if leb 200 code && ltb code 300
    then "2xx"
    else if leb 400 code && ltb code 500
    then "4xx"
    else "5xx"

unfoldable pub observe_request :
    GatewayMetrics
    → (department endpoint : String) (method : Text) (status_code duration : ℕ) → GatewayMetrics
observe_request m department endpoint method status_code duration =
    request_duration_seconds department endpoint (upper method) duration
    ∷ http_requests_total department endpoint (upper method) (status_class status_code)
    ∷ m

unfoldable pub observe_model_request :
    GatewayMetrics
    → (department model_name endpoint : String) (method : Text) (status_code duration : ℕ)
    → GatewayMetrics
observe_model_request m department model_name endpoint method status_code duration =
    model_request_duration_seconds department model_name endpoint (upper method) duration
    ∷ model_http_requests_total department model_name endpoint (upper method)
        (status_class status_code)
    ∷ m

unfoldable pub record_request_failure :
    GatewayMetrics
    → (department endpoint : String) (method : Text) (status_code : ℕ) (failure_origin : String)
    → GatewayMetrics
record_request_failure m department endpoint method status_code failure_origin =
    if ltb status_code 400
    then m
    else (http_request_failures_total department endpoint (upper method) (status_class status_code)
          failure_origin
        ∷ m)

unfoldable pub record_prompt_tokens : GatewayMetrics → String → String → ℤ → GatewayMetrics
record_prompt_tokens m department model_name prompt_tokens =
    if leb_ℤ prompt_tokens (pos 0)
    then m
    else (prompt_tokens_total department model_name (to_nat prompt_tokens) ∷ m)

unfoldable pub record_generation_tokens : GatewayMetrics → String → String → ℤ → GatewayMetrics
record_generation_tokens m department model_name generation_tokens =
    if leb_ℤ generation_tokens (pos 0)
    then m
    else (generation_tokens_total department model_name (to_nat generation_tokens) ∷ m)

unfoldable pub record_source_resolution : GatewayMetrics → String → String → GatewayMetrics
record_source_resolution m department resolution_source =
    source_resolution_total department resolution_source ∷ m

unfoldable pub record_token_accounting : GatewayMetrics → String → String → GatewayMetrics
record_token_accounting m endpoint accounting_status =
    token_accounting_total endpoint accounting_status ∷ m

unfoldable pub record_model_token_accounting :
    GatewayMetrics → (department model_name endpoint accounting_status : String) → GatewayMetrics
record_model_token_accounting m department model_name endpoint accounting_status =
    model_token_accounting_total department model_name endpoint accounting_status ∷ m

unfoldable pub record_admission_rejection :
    GatewayMetrics → (department model_name reason : String) → GatewayMetrics
record_admission_rejection m department model_name reason =
    admission_rejections_total department model_name reason ∷ m

unfoldable pub inc_inflight_request :
    GatewayMetrics → (department model_name endpoint : String) → GatewayMetrics
inc_inflight_request m department model_name endpoint =
    inflight_requests_inc department model_name endpoint ∷ m

unfoldable pub dec_inflight_request :
    GatewayMetrics → (department model_name endpoint : String) → GatewayMetrics
dec_inflight_request m department model_name endpoint =
    inflight_requests_dec department model_name endpoint ∷ m

unfoldable pub record_token_budget_rejection :
    GatewayMetrics → (department model_name : String) → GatewayMetrics
record_token_budget_rejection m department model_name =
    token_budget_rejections_total department model_name ∷ m

unfoldable pub record_retry_guard_open :
    GatewayMetrics → (department model_name : String) → GatewayMetrics
record_retry_guard_open m department model_name = retry_guard_open_total department model_name ∷ m

unfoldable pub observe_upstream_request_duration :
    GatewayMetrics → (model_name upstream_name endpoint : String) (duration : ℕ) → GatewayMetrics
observe_upstream_request_duration m model_name upstream_name endpoint duration =
    upstream_request_duration_seconds model_name upstream_name endpoint duration ∷ m

unfoldable pub observe_stream_first_chunk :
    GatewayMetrics → (department model_name endpoint : String) (duration : ℕ) → GatewayMetrics
observe_stream_first_chunk m department model_name endpoint duration =
    stream_first_chunk_seconds department model_name endpoint duration ∷ m

unfoldable pub record_upstream_selection :
    GatewayMetrics → (model_name upstream_name : String) → GatewayMetrics
record_upstream_selection m model_name upstream_name =
    upstream_selections_total model_name upstream_name ∷ m
