-- ===== src/RequestMetrics.antt =====
-- src/vllm_source_gateway/request_metrics.py: what a request carries in `request.state` for its
-- metrics, and the one time that it is recorded.
pub mod Once
use vllm_source_gateway.Base.{
  ℕ, String, Bool, true, false, ◌&&◌, Option, none, some, leb, or_default, ◌-◌, if◌then◌else◌,
}
use vllm_source_gateway.Text.{Text}
use vllm_source_gateway.Metrics.{
  GatewayMetrics, observe_request, observe_model_request, record_request_failure,
}

-- The attributes that the module sets on `request.state`. One that is missing reads as None, and a
-- missing `recorded` as False.
pub record RequestState : Type 0 where
  pub started_at : Option ℕ
  pub recorded : Bool
  pub endpoint : Option String
  pub department : Option String
  pub model : Option String
  pub status_code_override : Option ℕ
  pub failure_origin : Option String

pub record RequestMetricsSnapshot : Type 0 where
  pub department : Option String
  pub endpoint : Option String
  pub model_name : Option String
  pub method : Text
  pub status_code : ℕ
  pub duration_seconds : ℕ
  pub failure_origin : Option String

unfoldable pub initialize_request_metrics_state : (now : ℕ) → RequestState
initialize_request_metrics_state now = record {
  started_at = some now;
  recorded = false;
  endpoint = none;
  department = none;
  model = none;
  status_code_override = none;
  failure_origin = none;
}

unfoldable pub set_request_metrics_context :
    RequestState → (department endpoint : String) → RequestState
set_request_metrics_context s department endpoint = record s {
  department = some department;
  endpoint = some endpoint;
}

unfoldable pub set_request_metrics_model : RequestState → (model_name : String) → RequestState
set_request_metrics_model s model_name = record s { model = some model_name }

unfoldable pub set_request_metrics_status_override : RequestState → (status_code : ℕ) → RequestState
set_request_metrics_status_override s status_code = record s {
  status_code_override = some status_code;
}

unfoldable pub set_request_metrics_failure_origin :
    RequestState → (failure_origin : String) → RequestState
set_request_metrics_failure_origin s origin = record s { failure_origin = some origin }

-- The origin that is set, or "gateway" for a failure without one.
unfoldable pub origin_of : RequestState → (status_code : ℕ) → Option String
origin_of s status_code = elim s.failure_origin [
  | some origin ↦ some origin
  | none ↦ if leb 400 status_code then some "gateway" else none
]

unfoldable pub build_request_metrics_snapshot :
    RequestState → (method : Text) (default_status_code now : ℕ) → Option RequestMetricsSnapshot
unfolding origin_of
build_request_metrics_snapshot s method default_status_code now = elim s.started_at [
  | none ↦ none
  | some started_at ↦
      let code = or_default s.status_code_override default_status_code in
      some (record {
        department = s.department;
        endpoint = s.endpoint;
        model_name = s.model;
        method = method;
        status_code = code;
        duration_seconds = now - started_at;
        failure_origin = origin_of s code;
      })
]

-- The calls on the metrics, for a snapshot with this department and endpoint.
unfoldable pub observe_model :
    GatewayMetrics → (department endpoint : String) → RequestMetricsSnapshot → GatewayMetrics
unfolding observe_model_request
observe_model m department endpoint snapshot = elim snapshot.model_name [
  | none ↦ m
  | some model_name ↦
      observe_model_request m department model_name endpoint snapshot.method snapshot.status_code
        snapshot.duration_seconds
]

unfoldable pub observe_failure :
    GatewayMetrics → (department endpoint : String) → RequestMetricsSnapshot → GatewayMetrics
unfolding record_request_failure
observe_failure m department endpoint snapshot = elim snapshot.failure_origin [
  | none ↦ m
  | some origin ↦
      record_request_failure m department endpoint snapshot.method snapshot.status_code origin
]

unfoldable pub observe_snapshot : GatewayMetrics → RequestMetricsSnapshot → GatewayMetrics
unfolding observe_request observe_model observe_failure
observe_snapshot m snapshot = elim snapshot.department [
  | none ↦ m
  | some department ↦ elim snapshot.endpoint [
    | none ↦ m
    | some endpoint ↦
        let observed =
          observe_request m department endpoint snapshot.method snapshot.status_code
            snapshot.duration_seconds in
        observe_failure (observe_model observed department endpoint snapshot) department endpoint
          snapshot
  ]
]

abbrev pub Finalized : Type 0
Finalized = Option RequestMetricsSnapshot × RequestState × GatewayMetrics

unfoldable pub finalize_request_metrics :
    RequestState → GatewayMetrics → (method : Text) (default_status_code now : ℕ) → Finalized
unfolding build_request_metrics_snapshot observe_snapshot
finalize_request_metrics s m method default_status_code now =
    if s.recorded
    then (none, s, m)
    else elim (build_request_metrics_snapshot s method default_status_code now) [
      | none ↦ (none, s, m)
      | some snapshot ↦ (some snapshot, record s { recorded = true }, observe_snapshot m snapshot)
    ]
