-- ===== src/RequestMetrics/Once.antt =====
-- A request is recorded once, and a failed one as one failure.
use vllm_source_gateway.Base.{
  ℕ, suc, String, ◌≡◌, ◌+◌, Bool, true, false, none, some, leb, count_by, or_default, if◌then◌else◌,
  arith,
}
use vllm_source_gateway.Text.{Text}
use vllm_source_gateway.Metrics.{
  Sample, GatewayMetrics, http_request_failures_total, http_requests_total, observe_request,
  observe_model_request, record_request_failure,
}
use vllm_source_gateway.RequestMetrics.{
  RequestState, Finalized, finalize_request_metrics, build_request_metrics_snapshot,
  observe_snapshot, observe_model, observe_failure, origin_of,
}

-- A call on the results of a call.
abbrev pub finalize_again : Finalized → (method : Text) (default_status_code now : ℕ) → Finalized
finalize_again (snapshot, s, m) method code now = finalize_request_metrics s m method code now

abbrev pub Stays : (method : Text) (code now : ℕ) → Finalized → Type 0
Stays method code now f = finalize_again f method code now ≡ (none, f.1, f.2)

-- Once a request was finalized, to finalize it again returns no snapshot and changes neither its
-- state nor the metrics, whatever the state was before, and with any status and time: what the
-- middleware and the end of a stream both do is counted once.
pub finalize_request_metrics-again :
    (s : RequestState) (m : GatewayMetrics) (method other : Text) (code now code2 now2 : ℕ)
    → Stays other code2 now2 (finalize_request_metrics s m method code now)
unfolding finalize_request_metrics build_request_metrics_snapshot
finalize_request_metrics-again s m method other code now code2 now2 = ground (arith)

is_request : Sample → Bool
is_request (http_requests_total a b c d) = true
is_request _ = false

is_failure : Sample → Bool
is_failure (http_request_failures_total a b c d e) = true
is_failure _ = false

-- The requests that were counted, and the failures among them.
unfoldable pub requests_counted : GatewayMetrics → ℕ
unfolding is_request
requests_counted = count_by is_request

unfoldable pub failures_counted : GatewayMetrics → ℕ
unfolding is_failure
failures_counted = count_by is_failure

-- The status that counts: the one that was set, or the response's.
abbrev pub effective_status : RequestState → ℕ → ℕ
effective_status s code = or_default s.status_code_override code

-- A request that has a start time, a department and an endpoint and is not yet recorded counts as
-- one request, and as one failure exactly where its status is 400 or more, with or without an origin.
pub finalize_request_metrics-counts :
    (s : RequestState) (m : GatewayMetrics) (method : Text) (code now started : ℕ) (d e : String)
    → s.recorded ≡ false
    → s.started_at ≡ some started
    → s.department ≡ some d
    → s.endpoint ≡ some e
    → (requests_counted (finalize_request_metrics s m method code now).2 ≡ suc (requests_counted m))
      × (failures_counted (finalize_request_metrics s m method code now).2
          ≡ failures_counted m + (if leb 400 (effective_status s code) then 1 else 0))
unfolding finalize_request_metrics build_request_metrics_snapshot observe_snapshot observe_model
    observe_failure origin_of observe_request observe_model_request record_request_failure
    requests_counted failures_counted
finalize_request_metrics-counts s m method code now started d e fresh start department endpoint =
    ground (arith, fresh, start, department, endpoint)
