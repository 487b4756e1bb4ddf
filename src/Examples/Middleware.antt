-- ===== src/Examples/Middleware.antt =====
-- Examples for `Middleware`, `Logging` and `Routes`.
use vllm_source_gateway.Base.{◌≡◌, refl, [], ◌∷◌, true, none, some}
use vllm_source_gateway.Text.{codes}
use vllm_source_gateway.RequestMetrics.{
  RequestMetricsSnapshot, initialize_request_metrics_state, set_request_metrics_context,
}
use vllm_source_gateway.Logging.{LoggedRequest, log_request_completion, warning, name, text, number}
use vllm_source_gateway.Logging.Private.{log_request_completion-private}
use vllm_source_gateway.Middleware.{
  responds, failed, Application, Served, Occasion, request_metrics_middleware,
}
use vllm_source_gateway.Middleware.Recorded.{IsRecordedIf, request_metrics_middleware-IsRecordedIf}

abbrev logged : LoggedRequest
logged = record {
  path = codes "/v1/chat/completions";
  headers = (codes "authorization", codes "Bearer k") ∷ (codes "x-request-id", codes "7") ∷ [];
}

abbrev other : LoggedRequest
other = record {
  path = codes "/v1/chat/completions";
  headers = (codes "x-request-id", codes "7") ∷ (codes "cookie", codes "id=1") ∷ [];
}

abbrev snapshot : RequestMetricsSnapshot
snapshot = record {
  department = some "d";
  endpoint = some "chat";
  model_name = none;
  method = codes "POST";
  status_code = 502;
  duration_seconds = 9;
  failure_origin = some "gateway";
}

log_run :
    log_request_completion logged (some snapshot) []
    ≡ record {
      level = warning;
      fields =
          ("method", text (codes "POST"))
          ∷ ("path", text (codes "/v1/chat/completions"))
          ∷ ("status_code", number 502)
          ∷ ("duration_seconds", number 9)
          ∷ ("endpoint", name "chat")
          ∷ ("department", name "d")
          ∷ ("failure_origin", name "gateway")
          ∷ ("request_id", text (codes "7"))
          ∷ [];
    }
      ∷ []
unfolding log_request_completion
log_run = refl

log_request_completion-private_example :
    log_request_completion logged (some snapshot) []
    ≡ log_request_completion other (some snapshot) []
log_request_completion-private_example =
    log_request_completion-private logged other (some snapshot) [] refl refl refl

-- A stream that fails halfway.
abbrev application : Application
application = record {
  call_next = λ s m. (responds 200 true, set_request_metrics_context s "d" "chat", m);
  body = λ s m. (failed, s, m);
}

abbrev occasion : Occasion
occasion = record { method = codes "POST"; request = logged; began_at = 5; ended_at = 14 }

abbrev before : Served
before = record { state = initialize_request_metrics_state 0; metrics = []; log = [] }

request_metrics_middleware-IsRecordedIf_example :
    IsRecordedIf true before (request_metrics_middleware application occasion true before)
unfolding initialize_request_metrics_state set_request_metrics_context
request_metrics_middleware-IsRecordedIf_example =
    request_metrics_middleware-IsRecordedIf application occasion "d" "chat" true before
      (λ s m opened. (opened, refl))
      (record { fresh = refl; start = 5; begun = refl; department = refl; endpoint = refl }) refl
