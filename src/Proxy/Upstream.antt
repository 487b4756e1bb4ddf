-- ===== src/Proxy/Upstream.antt =====
-- One upstream for a request: its selection, the errors on the way to it, and the tokens it reports.
use vllm_source_gateway.Base.{
  ℕ, String, List, Bool, true, false, not, ◌&&◌, none, some, leb, ltb, if◌then◌else◌, ℤ,
}
use vllm_source_gateway.Http.{ok}
use vllm_source_gateway.Metrics.{
  GatewayMetrics, record_upstream_selection, record_token_accounting, record_model_token_accounting,
  record_prompt_tokens, record_generation_tokens,
}
use vllm_source_gateway.Models.{UpstreamTarget}
use vllm_source_gateway.Usage.{UsageTokens}
use vllm_source_gateway.Admission.Accounting.{record_retry_event}
use vllm_source_gateway.Routing.Registry.{done, fails}
use vllm_source_gateway.Routing.Select.{Selected}
use vllm_source_gateway.Routing.Select as Registry
use vllm_source_gateway.Proxy.State.{
  Gateway, World, Handled, TransportError, connect_error, connect_timeout, other_timeout,
  other_error, with_metrics, with_admission,
}
use vllm_source_gateway.Proxy.Body.{raise_routing_error, raise_accounted}

-- What `_select_upstream` makes of the registry's answer. Of the upstream the callers use the base
-- URL, the token and the name.
unfoldable pub after_selection : Gateway → (model_name : String) → Selected → Handled UpstreamTarget
unfolding with_metrics raise_routing_error record_upstream_selection
after_selection g model_name (fails error, routing) =
    raise_routing_error (record g { routing = routing }) error
after_selection g model_name (done selected, routing) = (
  ok selected.upstream,
  with_metrics (record g { routing = routing })
      λ m. record_upstream_selection m model_name selected.upstream.name,
)

unfoldable pub select_upstream :
    Gateway → (model_name : String) (excluded : List String) → Handled UpstreamTarget
unfolding after_selection Registry.select_upstream
select_upstream g model_name excluded =
    after_selection g model_name (Registry.select_upstream g.routing model_name excluded)

abbrev pub is_connect_stage_retryable_error : TransportError → Bool
is_connect_stage_retryable_error connect_error = true
is_connect_stage_retryable_error connect_timeout = true
is_connect_stage_retryable_error other_timeout = false
is_connect_stage_retryable_error other_error = false

-- isinstance(exc, httpx.TimeoutException)
abbrev pub is_timeout : TransportError → Bool
is_timeout connect_error = false
is_timeout connect_timeout = true
is_timeout other_timeout = true
is_timeout other_error = false

unfoldable pub raise_upstream_transport_error :
    {A : Type 0}
    → World
    → Gateway
    → (department model_name endpoint : String) → TransportError
    → Handled A
unfolding raise_accounted record_retry_event with_admission
raise_upstream_transport_error w g department model_name endpoint exc =
    let h = with_admission g (record_retry_event g.admission w.retried_at department model_name) in
    if is_timeout exc
    then raise_accounted h endpoint 504 "upstream request timed out" "missing_usage"
    else raise_accounted h endpoint 502 "upstream request failed" "missing_usage"

unfoldable pub record_accounting :
    GatewayMetrics → (department model_name endpoint accounting_status : String) → GatewayMetrics
unfolding record_token_accounting record_model_token_accounting
record_accounting m department model_name endpoint accounting_status =
    record_model_token_accounting (record_token_accounting m endpoint accounting_status) department
      model_name endpoint accounting_status

-- The part of `_record_usage` for a successful response that reports its tokens.
unfoldable pub record_reported :
    GatewayMetrics → (department model_name endpoint : String) → ℤ → ℤ → GatewayMetrics
unfolding record_prompt_tokens record_generation_tokens record_accounting
record_reported m department model_name endpoint prompt_tokens generation_tokens =
    let prompted = record_prompt_tokens m department model_name prompt_tokens in
    let generated = record_generation_tokens prompted department model_name generation_tokens in
    record_accounting generated department model_name endpoint "recorded"

unfoldable pub record_usage :
    GatewayMetrics
    → (department model_name endpoint : String) (upstream_status_code : ℕ) → UsageTokens
    → UsageTokens × GatewayMetrics
unfolding record_reported record_accounting
record_usage m department model_name endpoint upstream_status_code usage =
    if not (leb 200 upstream_status_code && ltb upstream_status_code 300)
    then (none, record_accounting m department model_name endpoint "missing_usage")
    else elim usage [
      | none ↦ (none, record_accounting m department model_name endpoint "missing_usage")
      | some (prompt_tokens, generation_tokens) ↦ (
        some (prompt_tokens, generation_tokens),
        record_reported m department model_name endpoint prompt_tokens generation_tokens,
      )
    ]
