-- ===== src/Routes.antt =====
-- src/vllm_source_gateway/routers/health.py and src/vllm_source_gateway/routers/models.py: the
-- payloads of the health routes and of the model list.
pub mod Ready
use vllm_source_gateway.Base.{
  ℕ, String, List, [], ◌∷◌, map, Bool, Option, none, some, pos, length, count_by, ltb,
  if◌then◌else◌,
}
use vllm_source_gateway.Dict.{items}
use vllm_source_gateway.Json.{
  Value, null, bool, int, str, arr, obj, Fields, end, field, Items, nil, cons,
}
use vllm_source_gateway.Models.{
  UpstreamHealthSnapshot, ModelAvailability, ModelStatus, online, unavailable, status,
}
use vllm_source_gateway.Routing.Registry.{RoutingRegistry, health_snapshots, list_models}
use vllm_source_gateway.Config.App.{AppConfig, model_names}

abbrev pub number : ℕ → Value
number n = int (pos n)

unfoldable pub build_liveness_payload : AppConfig → Fields
unfolding model_names items
build_liveness_payload config = field "status" (str "ok") (
    field "upstream_count" (number (length config.upstreams)) (
      field "model_count" (number (length (model_names config)))
        (field "department_count" (number (length (items config.departments))) end)))

abbrev optional_text : Option String → Value
optional_text none = null
optional_text (some s) = str s

abbrev optional_number : Option ℕ → Value
optional_number none = null
optional_number (some n) = number n

unfoldable pub snapshot_payload : UpstreamHealthSnapshot → Value
snapshot_payload s = obj (
    field "name" (str s.upstream_name) (
      field "healthy" (bool s.healthy) (
        field "last_probe_at" (optional_text s.last_probe_at) (
          field "last_success_at" (optional_text s.last_success_at) (
            field "last_status_code" (optional_number s.last_status_code)
              (field "last_error" (optional_text s.last_error) end))))))

abbrev values : List Value → Items
values [] = nil
values (v ∷ vs) = cons v (values vs)

-- The status code and the payload of /readyz.
unfoldable pub build_readiness_payload : RoutingRegistry → ℕ × Fields
unfolding health_snapshots snapshot_payload
build_readiness_payload r =
    let snapshots = health_snapshots r in
    let healthy_upstream_count = count_by (λ s. s.healthy) snapshots in
    let ready = ltb 0 healthy_upstream_count in
    (
      if ready then 200 else 503,
      field "status" (str (if ready then "ok" else "not_ready")) (
          field "healthy_upstream_count" (number healthy_upstream_count) (
            field "total_upstream_count" (number (length snapshots))
              (field "upstreams" (arr (values (map snapshot_payload snapshots))) end))),
    )

abbrev status_text : ModelStatus → String
status_text online = "online"
status_text unavailable = "unavailable"

unfoldable pub model_payload : ModelAvailability → Value
unfolding status
model_payload m = obj (
    field "id" (str m.model_name) (
      field "object" (str "model") (
        field "status" (str (status_text (status m))) (
          field "healthy_upstreams" (number m.healthy_upstream_count)
            (field "total_upstreams" (number m.total_upstream_count) end)))))

-- The payload of /v1/models.
unfoldable pub models_payload : RoutingRegistry → Fields
unfolding list_models model_payload
models_payload r =
    field "object" (str "list")
      (field "data" (arr (values (map model_payload (list_models r)))) end)
