-- ===== src/Routing/Registry.antt =====
-- `RoutingRegistry`: its state, its construction, and what reads or sets the health of an upstream.
use vllm_source_gateway.Base.{
  ℕ, String, List, [], ◌∷◌, ◌++◌, Bool, true, false, not, Option, none, some, map, length, count_by,
  string_eq, if◌then◌else◌,
}
use vllm_source_gateway.Dict.{Dict, empty, get, put, get_or, items, contains}
use vllm_source_gateway.Models.{UpstreamTarget, ModelAvailability, UpstreamHealthSnapshot}
use vllm_source_gateway.Sorting.{sort_by_key}

-- The exceptions of the module; `crash` is a KeyError, an IndexError or a ZeroDivisionError, which
-- a registry that the constructor made never raises.
pub data RoutingError : Type 0 where
  unknown_upstream unknown_model no_healthy_upstream : String → RoutingError
  crash : RoutingError

pub data Routed {ℓ} (A : Type ℓ) : Type ℓ where
  done : A → Routed A
  fails : RoutingError → Routed A

pub record UpstreamHealthState : Type 0 where
  pub healthy : Bool
  pub last_probe_at : Option String
  pub last_success_at : Option String
  pub last_status_code : Option ℕ
  pub last_error : Option String

pub record RoutingRegistry : Type 0 where
  pub upstreams_by_name : Dict String UpstreamTarget
  pub model_to_upstreams : Dict String (List UpstreamTarget)
  pub health_by_name : Dict String UpstreamHealthState
  pub round_robin_index : Dict String ℕ

abbrev pub unprobed : UpstreamHealthState
unprobed = record {
  healthy = true;
  last_probe_at = none;
  last_success_at = none;
  last_status_code = none;
  last_error = none;
}

-- {upstream.name: upstream for upstream in upstreams}
unfoldable pub by_name :
    List UpstreamTarget → Dict String UpstreamTarget → Dict String UpstreamTarget
by_name [] d = d
by_name (u ∷ us) d = by_name us (put d u.name u)

-- {upstream.name: UpstreamHealthState(healthy=True) for upstream in upstreams}
unfoldable pub initial_health :
    List UpstreamTarget → Dict String UpstreamHealthState → Dict String UpstreamHealthState
initial_health [] d = d
initial_health (u ∷ us) d = initial_health us (put d u.name unprobed)

-- The inner loop: for model_name in upstream.models: model_index[model_name].append(upstream)
unfoldable pub index_upstream :
    UpstreamTarget
    → List String
    → Dict String (List UpstreamTarget)
    → Dict String (List UpstreamTarget)
index_upstream u [] index = index
index_upstream u (m ∷ ms) index = index_upstream u ms (put index m (get_or index m [] ++ u ∷ []))

unfoldable pub build_model_index :
    List UpstreamTarget → Dict String (List UpstreamTarget) → Dict String (List UpstreamTarget)
unfolding index_upstream
build_model_index [] index = index
build_model_index (u ∷ us) index = build_model_index us (index_upstream u u.models index)

-- The constructor.
unfoldable pub new : List UpstreamTarget → RoutingRegistry
unfolding by_name initial_health build_model_index
new upstreams = record {
  upstreams_by_name = by_name upstreams empty;
  model_to_upstreams = build_model_index upstreams empty;
  health_by_name = initial_health upstreams empty;
  round_robin_index = empty;
}

unfoldable pub get_upstream : RoutingRegistry → String → Routed UpstreamTarget
get_upstream r upstream_name = elim (get r.upstreams_by_name upstream_name) [
  | none ↦ fails (unknown_upstream upstream_name)
  | some u ↦ done u
]

unfoldable pub get_model_upstreams : RoutingRegistry → String → Routed (List UpstreamTarget)
get_model_upstreams r model_name = elim (get r.model_to_upstreams model_name) [
  | none ↦ fails (unknown_model model_name)
  | some pool ↦ done pool
]

-- self._health_by_name[name].healthy; a missing name is a KeyError, here not healthy: see
-- `Routing.WellFormed`, where no name is missing
abbrev pub is_healthy : RoutingRegistry → UpstreamTarget → Bool
is_healthy r u = elim (get r.health_by_name u.name) [ none ↦ false | some state ↦ state.healthy ]

unfoldable pub availability : RoutingRegistry → String × List UpstreamTarget → ModelAvailability
availability r (model_name, upstreams) = record {
  model_name = model_name;
  total_upstream_count = length upstreams;
  healthy_upstream_count = count_by (is_healthy r) upstreams;
}

unfoldable pub list_models : RoutingRegistry → List ModelAvailability
unfolding availability
list_models r = map (availability r) (sort_by_key (items r.model_to_upstreams))

unfoldable pub snapshot_of : String × UpstreamHealthState → UpstreamHealthSnapshot
snapshot_of (name, state) = record {
  upstream_name = name;
  healthy = state.healthy;
  last_probe_at = state.last_probe_at;
  last_success_at = state.last_success_at;
  last_status_code = state.last_status_code;
  last_error = state.last_error;
}

unfoldable pub health_snapshots : RoutingRegistry → List UpstreamHealthSnapshot
unfolding snapshot_of
health_snapshots r = map snapshot_of (sort_by_key (items r.health_by_name))

-- What a probe reports: the keyword arguments of `set_upstream_health`.
pub record HealthReport : Type 0 where
  pub healthy : Bool
  pub last_probe_at : Option String
  pub last_success_at : Option String
  pub last_status_code : Option ℕ
  pub last_error : Option String

-- x if x is not None else y, of optional texts
abbrev keep : Option String → Option String → Option String
keep none y = y
keep (some x) y = some x

-- replace(previous, …): the two times are kept where the report has none.
unfoldable pub replace_state : UpstreamHealthState → HealthReport → UpstreamHealthState
replace_state previous report = record {
  healthy = report.healthy;
  last_probe_at = keep report.last_probe_at previous.last_probe_at;
  last_success_at = keep report.last_success_at previous.last_success_at;
  last_status_code = report.last_status_code;
  last_error = report.last_error;
}

unfoldable pub set_upstream_health :
    RoutingRegistry → String → HealthReport → Routed (Unit {0}) × RoutingRegistry
unfolding replace_state
set_upstream_health r upstream_name report =
    if not (contains r.upstreams_by_name upstream_name)
    then (fails (unknown_upstream upstream_name), r)
    else elim (get r.health_by_name upstream_name) [
      | none ↦ (fails crash, r)
      | some previous ↦ (
        done tt,
        record r {
          health_by_name = put r.health_by_name upstream_name (replace_state previous report);
        },
      )
    ]
