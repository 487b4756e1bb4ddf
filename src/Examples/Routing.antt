-- ===== src/Examples/Routing.antt =====
-- Examples for `Routing` and `Health`.
use vllm_source_gateway.Base.{
  true, false, ℕ, ◌<◌, arith, string_eq, ◌≡◌, ◌↔◌, refl, ◌+◌, ◌%◌, List, [], ◌∷◌, none, some,
  length, get_elem?,
}
use vllm_source_gateway.Dict.{get}
use vllm_source_gateway.Models.{UpstreamTarget, SelectedUpstream, status, online}
use vllm_source_gateway.Routing.Registry.{RoutingRegistry, HealthReport, new, done, availability}
use vllm_source_gateway.Routing.Select.{select_upstream}
use vllm_source_gateway.Routing.WellFormed.{IsWellFormed, new-IsWellFormed}
use vllm_source_gateway.Routing.Selection.{Selects, cursor, select_upstream-Selects}
use vllm_source_gateway.Routing.Preserved.{Call, selects, reports, run, run-new-IsWellFormed}
use vllm_source_gateway.Routing.Availability.{status-select_upstream}
use vllm_source_gateway.Routing.Fairness.{after_selections, round_robin}
use vllm_source_gateway.Routing.Reached.{round_robin-reaches}
use vllm_source_gateway.Routes.{build_readiness_payload}
use vllm_source_gateway.Routes.Ready.{select_upstream-build_readiness_payload}
use vllm_source_gateway.Health.{Prober, replied, record_results, refresh_all}
use vllm_source_gateway.Health.Targets.{new-IsNamed}
use vllm_source_gateway.Health.Refreshed.{IsUpToDate, refresh_all-IsUpToDate}
use vllm_source_gateway.Health.Recorded.{Records, record_results-Records}

abbrev pub first : UpstreamTarget
first = record { name = "a"; base_url = "http://a"; models = "m" ∷ []; authorization_token = none }

abbrev pub second : UpstreamTarget
second = record {
  name = "b";
  base_url = "http://b";
  models = "m" ∷ [];
  authorization_token = some "t";
}

abbrev pub pool : List UpstreamTarget
pool = first ∷ second ∷ []

abbrev down : HealthReport
down = record {
  healthy = false;
  last_probe_at = some "t1";
  last_success_at = none;
  last_status_code = some 500;
  last_error = some "non_2xx";
}

abbrev calls : List Call
calls = selects "m" [] ∷ reports "a" down ∷ []

abbrev after_calls : RoutingRegistry
after_calls = run (new pool) calls

run-new-IsWellFormed_example : IsWellFormed after_calls
run-new-IsWellFormed_example = run-new-IsWellFormed pool calls

-- The first upstream is down.
select_upstream-Selects_example :
    Selects after_calls "m" [] pool (select_upstream after_calls "m" [])
unfolding run new get vllm_source_gateway.Routing.Registry.set_upstream_health select_upstream
    vllm_source_gateway.Dict.put vllm_source_gateway.Dict.empty
select_upstream-Selects_example =
    select_upstream-Selects after_calls "m" [] pool (run-new-IsWellFormed pool calls) refl

status-select_upstream_example :
    (status (availability after_calls ("m", pool)) ≡ online)
    ↔ ((s : SelectedUpstream) × ((select_upstream after_calls "m" []).0 ≡ done s))
unfolding run new get vllm_source_gateway.Routing.Registry.set_upstream_health select_upstream
    vllm_source_gateway.Dict.put vllm_source_gateway.Dict.empty
status-select_upstream_example =
    status-select_upstream after_calls "m" pool (run-new-IsWellFormed pool calls) refl

round_robin_example :
    (u : UpstreamTarget) × (get_elem? pool ((cursor (new pool) "m" [] pool + 3) % length pool)
      ≡ some u)
    × ((select_upstream (after_selections (new pool) "m" 3) "m" []).0
        ≡ done (record { model_name = "m"; upstream = u }))
unfolding new run get vllm_source_gateway.Dict.put vllm_source_gateway.Dict.empty
round_robin_example =
    round_robin (new pool) "m" pool 3 (run-new-IsWellFormed pool []) refl (refl, (refl, tt))

-- Both upstreams answer.
abbrev prober : Prober
prober = record { fetch = λ u. replied 204; clock = λ u. "t2" }

record_results-Records_example :
    Records prober (new pool) pool (record_results prober (new pool) pool)
unfolding new get vllm_source_gateway.Dict.put vllm_source_gateway.Dict.empty
record_results-Records_example =
    record_results-Records prober (new pool) pool ((refl, refl), ((refl, refl), tt))

round_robin-reaches_example :
    (k : ℕ) × (k < length pool)
    × ((select_upstream (after_selections (new pool) "m" k) "m" []).0
        ≡ done (record { model_name = "m"; upstream = second }))
unfolding new run get vllm_source_gateway.Dict.put vllm_source_gateway.Dict.empty
round_robin-reaches_example =
    round_robin-reaches (new pool) "m" pool 1 second (run-new-IsWellFormed pool []) refl
      (refl, (refl, tt)) (omega arith) refl

select_upstream-build_readiness_payload_example : (build_readiness_payload after_calls).0 ≡ 200
unfolding run new get vllm_source_gateway.Routing.Registry.set_upstream_health select_upstream
    vllm_source_gateway.Dict.put vllm_source_gateway.Dict.empty
select_upstream-build_readiness_payload_example =
    select_upstream-build_readiness_payload after_calls "m" pool []
      (record { model_name = "m"; upstream = second }) (run-new-IsWellFormed pool calls) refl refl

refresh_all-IsUpToDate_example : IsUpToDate prober second (
    refresh_all prober (record { enabled = true; has_client = false; has_task = false }) (new pool))
unfolding new get vllm_source_gateway.Dict.put vllm_source_gateway.Dict.empty
refresh_all-IsUpToDate_example =
    refresh_all-IsUpToDate prober (record { enabled = true; has_client = false; has_task = false })
      (new pool) second refl (new-IsWellFormed pool) (new-IsNamed pool) refl
