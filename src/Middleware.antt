-- ===== src/Middleware.antt =====
-- `request_metrics_middleware` of src/vllm_source_gateway/main.py: a request's metrics and its line in
-- the access log, recorded when it is over.
pub mod Recorded
use vllm_source_gateway.Base.{ℕ, Bool, true, false, List, Option, if◌then◌else◌}
use vllm_source_gateway.Text.{Text}
use vllm_source_gateway.Metrics.{GatewayMetrics}
use vllm_source_gateway.RequestMetrics.{
  RequestState, Finalized, initialize_request_metrics_state, set_request_metrics_status_override,
  finalize_request_metrics,
}
use vllm_source_gateway.Logging.{LoggedRequest, LogRecord, log_request_completion}

-- What `call_next` comes to: a response, a StreamingResponse or not, an exception, or the CancelledError
-- of the task, which is no Exception.
pub data Next : Type 0 where
  responds : (status_code : ℕ) → (is_streaming : Bool) → Next
  raises interrupted : Next

-- How the iteration over the body ends: at its end, with an exception, or with one that is no
-- Exception, such as a cancellation.
pub data BodyEnd : Type 0 where
  complete failed cancelled : BodyEnd

abbrev pub Inner : Type 0 → Type 0
Inner A = RequestState → GatewayMetrics → A × RequestState × GatewayMetrics

-- The application inside the middleware, and the body of its streaming response: what they do to the
-- request's state and to the metrics.
pub record Application : Type 0 where
  pub call_next : Inner Next
  pub body : Inner BodyEnd

-- The request's state, the metrics and the access log.
pub record Served : Type 0 where
  pub state : RequestState
  pub metrics : GatewayMetrics
  pub log : List LogRecord

-- What the middleware reads of the request, and the times at which it begins and ends.
pub record Occasion : Type 0 where
  pub method : Text
  pub request : LoggedRequest
  pub began_at : ℕ
  pub ended_at : ℕ

-- finalize_request_metrics and log_request_completion
unfoldable pub finalize_and_log : Occasion → (default_status_code : ℕ) → Served → Served
unfolding finalize_request_metrics log_request_completion
finalize_and_log o default_status_code v =
    let (snapshot, s, m) =
      finalize_request_metrics v.state v.metrics o.method default_status_code o.ended_at in
    record { state = s; metrics = m; log = log_request_completion o.request snapshot v.log }

-- except Exception: set_request_metrics_status_override(request, status_code=500)
unfoldable pub note_failed : BodyEnd → RequestState → RequestState
unfolding set_request_metrics_status_override
note_failed complete s = s
note_failed failed s = set_request_metrics_status_override s 500
note_failed cancelled s = s

unfoldable pub wrap_streaming_body : Application → Occasion → (status_code : ℕ) → Served → Served
unfolding note_failed finalize_and_log
wrap_streaming_body app o status_code v =
    let (end, s, m) = app.body v.state v.metrics in
    finalize_and_log o status_code (record v { state = note_failed end s; metrics = m })

-- `is_read` says whether the body of a streaming response is asked for at all; a generator that was
-- not started runs no line.
unfoldable pub request_metrics_middleware :
    Application → Occasion → (is_read : Bool) → Served → Served
unfolding initialize_request_metrics_state wrap_streaming_body finalize_and_log
request_metrics_middleware app o is_read v =
    let (next, s, m) = app.call_next (initialize_request_metrics_state o.began_at) v.metrics in
    let inner = record v { state = s; metrics = m } in
    elim next [
      | raises ↦ finalize_and_log o 500 inner
      | interrupted ↦ inner
      | responds status_code is_streaming ↦
          if is_streaming
          then (if is_read then wrap_streaming_body app o status_code inner else inner)
          else finalize_and_log o status_code inner
    ]
