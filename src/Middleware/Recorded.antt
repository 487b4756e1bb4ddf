-- ===== src/Middleware/Recorded.antt =====
-- Which requests the middleware records and logs, and that it does so once.
use vllm_source_gateway.Base.{
  ℕ, suc, String, ◌≡◌, refl, ◌∙◌, ap, Bool, true, false, some, length, if◌then◌else◌,
}
use vllm_source_gateway.Metrics.{GatewayMetrics}
use vllm_source_gateway.RequestMetrics.{
  RequestState, initialize_request_metrics_state, finalize_request_metrics,
  build_request_metrics_snapshot,
}
use vllm_source_gateway.RequestMetrics.Once.{requests_counted, finalize_request_metrics-counts}
use vllm_source_gateway.Logging.{log_request_completion}
use vllm_source_gateway.Middleware.{
  Next, responds, raises, interrupted, BodyEnd, complete, failed, cancelled, Application, Served,
  Occasion, finalize_and_log, note_failed, wrap_streaming_body, request_metrics_middleware,
}

-- The state of a request of a department and an endpoint that is not recorded yet.
pub record IsOpen (d e : String) (s : RequestState) : Type 0 where
  pub fresh : s.recorded ≡ false
  pub start : ℕ
  pub begun : s.started_at ≡ some start
  pub department : s.department ≡ some d
  pub endpoint : s.endpoint ≡ some e

-- One request more was counted, and one line more logged.
abbrev pub IsRecorded : Served → Served → Type 0
IsRecorded v w =
    (requests_counted w.metrics ≡ suc (requests_counted v.metrics))
    × (length w.log ≡ suc (length v.log))

-- The statements that count and log are reached: not where the task is cancelled within `call_next`, nor
-- where the body of a streaming response is never asked for.
abbrev pub is_finalized : Next → (is_read : Bool) → Bool
is_finalized raises is_read = true
is_finalized interrupted is_read = false
is_finalized (responds status_code true) is_read = is_read
is_finalized (responds status_code false) is_read = true

-- As many requests as `finalized` says were counted and logged, one or none.
abbrev pub IsRecordedIf : (finalized : Bool) → Served → Served → Type 0
IsRecordedIf true v w = IsRecorded v w
IsRecordedIf false v w = (requests_counted w.metrics ≡ requests_counted v.metrics) × (w.log ≡ v.log)

finalize-logs :
    (o : Occasion) (code : ℕ) (v : Served) (d e : String)
    → IsOpen d e v.state
    → length (finalize_and_log o code v).log ≡ suc (length v.log)
unfolding finalize_and_log finalize_request_metrics build_request_metrics_snapshot
    log_request_completion
finalize-logs o code v d e opened =
    rw (opened.fresh) (rw (opened.begun) (rw (opened.endpoint) refl))

finalize_and_log-IsRecorded :
    (o : Occasion) (code : ℕ) (v : Served) (d e : String)
    → IsOpen d e v.state
    → IsRecorded v (finalize_and_log o code v)
unfolding finalize_and_log
finalize_and_log-IsRecorded o code v d e opened = (
  (finalize_request_metrics-counts v.state v.metrics o.method code o.ended_at opened.start d e
      opened.fresh opened.begun opened.department opened.endpoint).0,
  finalize-logs o code v d e opened,
)

note_failed-IsOpen :
    (end : BodyEnd) (s : RequestState) (d e : String)
    → IsOpen d e s
    → IsOpen d e (note_failed end s)
unfolding note_failed
note_failed-IsOpen complete s d e opened = opened
note_failed-IsOpen failed s d e opened = record {
  fresh = opened.fresh;
  start = opened.start;
  begun = opened.begun;
  department = opened.department;
  endpoint = opened.endpoint;
}
note_failed-IsOpen cancelled s d e opened = opened

module _ (app : Application) (o : Occasion) (d e : String)
    (body_open : (s : RequestState) (m : GatewayMetrics)
      → IsOpen d e s
      → IsOpen d e (app.body s m).1
        × (requests_counted (app.body s m).2 ≡ requests_counted m)) where
  wrap-IsRecorded :
      (code : ℕ) (v : Served) → IsOpen d e v.state → IsRecorded v (wrap_streaming_body app o code v)
  unfolding wrap_streaming_body
  wrap-IsRecorded code v opened =
      let r = app.body v.state v.metrics in
      let (still, same) = body_open v.state v.metrics opened in
      let (counted, logged) =
        finalize_and_log-IsRecorded o code
          (record v { state = note_failed (r.0) (r.1); metrics = r.2 }) d e
          (note_failed-IsOpen (r.0) (r.1) d e still) in
      (counted ∙ ap suc same, logged)

-- Where the application attributes the request to a department and an endpoint, and neither it nor
-- the body of its response records a request themselves, the middleware counts the request and logs
-- one line for it, each exactly once, for an exception, for a response, and for a streaming response
-- whose body is asked for, also when it fails or is cancelled halfway. Where the task is cancelled
-- within `call_next`, or the body of a streaming response is never asked for, it does neither.
pub request_metrics_middleware-IsRecordedIf :
    (app : Application) (o : Occasion) (d e : String) (is_read : Bool) (v : Served)
    → ((s : RequestState) (m : GatewayMetrics)
        → IsOpen d e s
        → IsOpen d e (app.body s m).1 × (requests_counted (app.body s m).2 ≡ requests_counted m))
    → IsOpen d e (app.call_next (initialize_request_metrics_state o.began_at) v.metrics).1
    → requests_counted (app.call_next (initialize_request_metrics_state o.began_at) v.metrics).2
      ≡ requests_counted v.metrics
    → IsRecordedIf
        (is_finalized
          (app.call_next (initialize_request_metrics_state o.began_at) v.metrics).0
          is_read)
        v
        (request_metrics_middleware app o is_read v)
unfolding request_metrics_middleware
request_metrics_middleware-IsRecordedIf app o d e is_read v body_open opened same =
    let r = app.call_next (initialize_request_metrics_state o.began_at) v.metrics in
    let inner : Served = record v { state = r.1; metrics = r.2 } in
    let finalized = λ (code : ℕ).
      from_inner inner (finalize_and_log o code inner)
        (finalize_and_log-IsRecorded o code inner d e opened) same refl in
    let wrapped = λ (code : ℕ).
      from_inner inner (wrap_streaming_body app o code inner)
        (wrap-IsRecorded app o d e body_open code inner opened) same refl in
    outcome is_read (r.0) inner finalized wrapped (same, refl)
  where
    from_inner :
        (inner w : Served)
        → IsRecorded inner w
        → requests_counted inner.metrics ≡ requests_counted v.metrics
        → length inner.log ≡ length v.log
        → IsRecorded v w
    from_inner inner w recorded counted logged =
        (recorded.0 ∙ ap suc counted, recorded.1 ∙ ap suc logged)

    outcome :
        (is_read : Bool) (next : Next) (inner : Served)
        → ((code : ℕ) → IsRecorded v (finalize_and_log o code inner))
        → ((code : ℕ) → IsRecorded v (wrap_streaming_body app o code inner))
        → IsRecordedIf false v inner
        → IsRecordedIf (is_finalized next is_read) v (elim next [
          | raises ↦ finalize_and_log o 500 inner
          | interrupted ↦ inner
          | responds status_code is_streaming ↦
              if is_streaming
              then (if is_read then wrap_streaming_body app o status_code inner else inner)
              else finalize_and_log o status_code inner
        ])
    outcome is_read raises inner finalized wrapped nothing = finalized 500
    outcome is_read interrupted inner finalized wrapped nothing = nothing
    outcome true (responds code true) inner finalized wrapped nothing = wrapped code
    outcome false (responds code true) inner finalized wrapped nothing = nothing
    outcome is_read (responds code false) inner finalized wrapped nothing = finalized code
