-- ===== src/Examples/Proxy.antt =====
-- Examples for `Proxy`, `Source` and `RequestMetrics`.
use vllm_source_gateway.Base.{
  String, string_eq, pair_eq, ◌≡◌, refl, ◌+◌, ◌*◌, List, [], ◌∷◌, true, none, some, leb,
  if◌then◌else◌, suc,
}
use vllm_source_gateway.Dict.{Dict, empty, get, put}
use vllm_source_gateway.Text.{Text, codes, text_eq}
use vllm_source_gateway.Json.{loads_value, Value, obj, field, str, end}
use vllm_source_gateway.Usage.{extract_chat_usage}
use vllm_source_gateway.Source.{SourceResolutionResult, get_source_resolution_result}
use vllm_source_gateway.Source.Resolution.{Resolves, get_source_resolution_result-Resolves}
use vllm_source_gateway.RequestMetrics.{
  RequestState, initialize_request_metrics_state, set_request_metrics_context,
  finalize_request_metrics,
}
use vllm_source_gateway.RequestMetrics.Once.{
  Stays, effective_status, requests_counted, failures_counted, finalize_request_metrics-again,
  finalize_request_metrics-counts,
}
use vllm_source_gateway.Admission.Config.{AdmissionControlConfig, ticks_per_second}
use vllm_source_gateway.Admission.Controller.{init}
use vllm_source_gateway.Routing.Registry.{new}
use vllm_source_gateway.Routing.Preserved.{run-new-IsWellFormed, run}
use vllm_source_gateway.Proxy.State.{
  Gateway, World, ProxyConfig, Request, UpstreamResponse, answered, broken, connect_error,
}
use vllm_source_gateway.Proxy.Headers.{build_upstream_headers}
use vllm_source_gateway.Proxy.Failover.{Call}
use vllm_source_gateway.Proxy.Endpoint.{Route, proxy_json_endpoint, contact}
use vllm_source_gateway.Proxy.Asked.{asks_for_stream}
use vllm_source_gateway.Proxy.Balance.{same_refl}
use vllm_source_gateway.Proxy.Settled.{Settles}
use vllm_source_gateway.Proxy.Requests.{proxy_json_endpoint-Settles}
use vllm_source_gateway.Proxy.Termination.{Finishes, contact-Finishes}
use vllm_source_gateway.Proxy.Secrets.{Sent, build_upstream_headers-Sent}
use vllm_source_gateway.Examples.Routing.{pool}

abbrev pub admission_config : AdmissionControlConfig
admission_config = record {
  enabled = true;
  default_retry_after_seconds = 3;
  global_model_limits = put empty "m" (record { max_active_requests = 2 });
  department_model_limits = [];
  token_budgets = [];
  request_shape_limits = empty;
  retry_guard = record {
    enabled = true;
    window_seconds = 30 * ticks_per_second;
    max_events = 1;
    cooldown_seconds = 5 * ticks_per_second;
  };
}

abbrev request_state : RequestState
request_state = set_request_metrics_context (initialize_request_metrics_state 100) "d" "chat"

abbrev pub gateway : Gateway
gateway = record {
  routing = new pool;
  admission = init admission_config [];
  request = request_state;
}

abbrev headers : List (Text × Text)
headers =
    (codes "authorization", codes "Bearer client-key")
    ∷ (codes "cookie", codes "id=1")
    ∷ (codes "accept", codes "application/json")
    ∷ []

abbrev pub request : Request
request = record { headers = headers; body = some (codes "{}") }

abbrev body : Value
body = obj (field "model" (str "m") end)

abbrev ok_response : UpstreamResponse
ok_response = record { status_code = 200; headers = []; content = codes "{}" }

-- The first attempt cannot connect, the second is answered.
abbrev pub world : World
world = record {
  json_loads = λ s. loads_value body;
  event_loads = λ s. loads_value body;
  parse_int = λ s. none;
  send = λ n url headers payload. if leb 1 n then answered ok_response 4 else broken connect_error;
  meanwhile = λ n s. s;
  acquired_at = 10;
  retried_at = 20;
  recorded_at = 30;
}

abbrev pub proxy_config : ProxyConfig
proxy_config = record { reject_unknown_api_keys = true; max_request_body_bytes = 1000 }

abbrev keys : Dict Text String
keys = put empty (codes "client-key") "d"

abbrev pub route : Route
route = record {
  endpoint = "chat";
  upstream_path = "/v1/chat/completions";
  usage_extractor = extract_chat_usage;
}

abbrev pub source : SourceResolutionResult
source = record {
  department = "d";
  api_key = some (codes "client-key");
  resolution_source = "api_key";
}

proxy_json_endpoint-Settles_example :
    Settles gateway
      (asks_for_stream world request)
      (proxy_json_endpoint world proxy_config request source route gateway)
proxy_json_endpoint-Settles_example =
    proxy_json_endpoint-Settles world proxy_config request source route gateway
      (λ n r c. same_refl c)

abbrev call : Call
call = record {
  request = request;
  department = "d";
  model_name = "m";
  endpoint = "chat";
  upstream_path = "/v1/chat/completions";
  payload = field "model" (str "m") end;
  observes_duration = true;
}

contact-Finishes_example : Finishes world call (contact world call gateway)
unfolding new run get put empty
contact-Finishes_example =
    contact-Finishes world call pool gateway (λ n r c v. v) (run-new-IsWellFormed pool [], refl)

build_upstream_headers-Sent_example :
    Sent headers (some "t") (codes "authorization") (codes "Bearer t")
unfolding build_upstream_headers get put empty
build_upstream_headers-Sent_example =
    build_upstream_headers-Sent headers (some "t") (codes "authorization") (codes "Bearer t") refl

get_source_resolution_result-Resolves_example :
    Resolves keys
      (some (codes "bearer client-key"))
      none
      (get_source_resolution_result keys (some (codes "bearer client-key")) none)
get_source_resolution_result-Resolves_example =
    get_source_resolution_result-Resolves keys (some (codes "bearer client-key")) none

finalize_request_metrics-again_example :
    Stays (codes "POST") 200 300 (finalize_request_metrics request_state [] (codes "POST") 502 200)
finalize_request_metrics-again_example =
    finalize_request_metrics-again request_state [] (codes "POST") (codes "POST") 502 200 200 300

finalize_request_metrics-counts_example :
    (requests_counted (finalize_request_metrics request_state [] (codes "POST") 502 200).2
      ≡ suc (requests_counted []))
    × (failures_counted (finalize_request_metrics request_state [] (codes "POST") 502 200).2
        ≡ failures_counted [] + (if leb 400 (effective_status request_state 502) then 1 else 0))
unfolding initialize_request_metrics_state set_request_metrics_context
finalize_request_metrics-counts_example =
    finalize_request_metrics-counts request_state [] (codes "POST") 502 200 100 "d" "chat" refl refl
      refl refl
