-- ===== src/Logging/Private.antt =====
-- What the access log can show of a request.
use vllm_source_gateway.Base.{◌≡◌, refl, List, Option, some, none}
use vllm_source_gateway.Text.{codes}
use vllm_source_gateway.RequestMetrics.{RequestMetricsSnapshot}
use vllm_source_gateway.Proxy.Body.{header_of}
use vllm_source_gateway.Logging.{
  LoggedRequest, LogRecord, build_access_log_fields, completion_record, log_request_completion,
}

-- With the same snapshot, in which the department and the status stand, requests that agree in their
-- path and in the headers X-Request-Id and X-Trace-Id are logged alike: beyond the snapshot, no other
-- header has any influence on the line.
pub log_request_completion-private :
    (request other : LoggedRequest) (snapshot : Option RequestMetricsSnapshot)
    (log : List LogRecord)
    → request.path ≡ other.path
    → header_of (codes "x-request-id") request.headers
      ≡ header_of (codes "x-request-id") other.headers
    → header_of (codes "x-trace-id") request.headers ≡ header_of (codes "x-trace-id") other.headers
    → log_request_completion request snapshot log ≡ log_request_completion other snapshot log
unfolding log_request_completion completion_record build_access_log_fields
log_request_completion-private request other none log path id trace = refl
log_request_completion-private request other (some snapshot) log path id trace =
    rw (path, id, trace) refl
