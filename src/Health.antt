-- ===== src/Health.antt =====
-- src/vllm_source_gateway/services/upstream_health.py: the monitor that probes the upstreams.
pub mod Recorded
pub mod Refreshed
pub mod Targets
use vllm_source_gateway.Base.{
  ℕ, String, List, [], ◌∷◌, Bool, true, false, not, ◌&&◌, Option, none, some, map, leb, ltb,
  if◌then◌else◌,
}
use vllm_source_gateway.Models.{UpstreamTarget, UpstreamHealthSnapshot}
use vllm_source_gateway.Routing.Registry.{
  RoutingRegistry, RoutingError, Routed, done, fails, HealthReport, get_upstream, health_snapshots,
  set_upstream_health,
}

pub record UpstreamProbeResult : Type 0 where
  pub healthy : Bool
  pub probed_at : String
  pub status_code : Option ℕ
  pub error : Option String

-- What the probe's GET comes to: an answer with its status code, or an exception with the text that
-- names it.
pub data ProbeReply : Type 0 where
  replied : ℕ → ProbeReply
  broke : String → ProbeReply

-- The network and the clock: what the GET to an upstream comes to, and when it starts.
pub record Prober : Type 0 where
  pub fetch : UpstreamTarget → ProbeReply
  pub clock : UpstreamTarget → String

abbrev pub is_success : ℕ → Bool
is_success status_code = leb 200 status_code && ltb status_code 300

unfoldable pub probe_result : (probed_at : String) → ProbeReply → UpstreamProbeResult
probe_result probed_at (broke error) = record {
  healthy = false;
  probed_at = probed_at;
  status_code = none;
  error = some error;
}
probe_result probed_at (replied status_code) =
    if not (is_success status_code)
    then record {
      healthy = false;
      probed_at = probed_at;
      status_code = some status_code;
      error = some "non_2xx";
    }
    else record {
      healthy = true;
      probed_at = probed_at;
      status_code = some status_code;
      error = none;
    }

unfoldable pub probe_upstream : Prober → UpstreamTarget → UpstreamProbeResult
unfolding probe_result
probe_upstream p upstream = probe_result (p.clock upstream) (p.fetch upstream)

-- The keyword arguments of the call of `set_upstream_health`.
unfoldable pub report_of : UpstreamProbeResult → HealthReport
report_of result = record {
  healthy = result.healthy;
  last_probe_at = some result.probed_at;
  last_success_at = if result.healthy then some result.probed_at else none;
  last_status_code = result.status_code;
  last_error = result.error;
}

-- [get_upstream(name) for name in names]
unfoldable pub targets_of : RoutingRegistry → List String → Routed (List UpstreamTarget)
unfolding get_upstream
targets_of r [] = done []
targets_of r (name ∷ names) = elim (get_upstream r name) [
  | fails error ↦ fails error
  | done u ↦ elim (targets_of r names) [ fails error ↦ fails error | done us ↦ done (u ∷ us) ]
]

-- The loop over the targets and their results.
unfoldable pub record_results :
    Prober → RoutingRegistry → List UpstreamTarget → Routed (Unit {0}) × RoutingRegistry
unfolding set_upstream_health report_of probe_upstream
record_results p r [] = (done tt, r)
record_results p r (u ∷ us) =
    let (result, next) = set_upstream_health r u.name (report_of (probe_upstream p u)) in
    elim result [ fails error ↦ (fails error, next) | done done_one ↦ record_results p next us ]

record_targets :
    Prober → RoutingRegistry → Routed (List UpstreamTarget) → Routed (Unit {0}) × RoutingRegistry
unfolding record_results
record_targets p r (fails error) = (fails error, r)
record_targets p r (done us) = record_results p r us

-- The monitor: whether it is enabled, and whether its client and its task are there.
pub record UpstreamHealthMonitor : Type 0 where
  pub enabled : Bool
  pub has_client : Bool
  pub has_task : Bool

abbrev pub Refreshed : Type 0
Refreshed = Routed (Unit {0}) × UpstreamHealthMonitor × RoutingRegistry

unfoldable pub refresh_all : Prober → UpstreamHealthMonitor → RoutingRegistry → Refreshed
unfolding record_targets targets_of health_snapshots
refresh_all p monitor r =
    if not monitor.enabled
    then (done tt, monitor, r)
    else (let names = map (λ (s : UpstreamHealthSnapshot). s.upstream_name) (health_snapshots r) in
        let (result, probed) = record_targets p r (targets_of r names) in
        (result, record monitor { has_client = true }, probed))

-- The task is created where the first refresh does not raise.
unfoldable pub start : Prober → UpstreamHealthMonitor → RoutingRegistry → Refreshed
unfolding refresh_all
start p monitor r =
    if not monitor.enabled
    then (done tt, monitor, r)
    else (let (result, refreshed, probed) = refresh_all p monitor r in
        elim result [
          | fails error ↦ (fails error, refreshed, probed)
          | done finished ↦ (done tt, record refreshed { has_task = true }, probed)
        ])

-- One round of `_run`: an exception of the refresh is logged and the loop goes on.
unfoldable pub run_once :
    Prober → UpstreamHealthMonitor → RoutingRegistry → UpstreamHealthMonitor × RoutingRegistry
unfolding refresh_all
run_once p monitor r =
    let (result, refreshed, probed) = refresh_all p monitor r in (refreshed, probed)

unfoldable pub stop : UpstreamHealthMonitor → UpstreamHealthMonitor
stop monitor = record monitor { has_client = false; has_task = false }
