-- ===== src/Health/Recorded.antt =====
-- What the probes of one refresh leave in the registry.
use vllm_source_gateway.Base.{
  String, ◌≡◌, refl, ◌∙◌, subst, sym, List, [], ◌∷◌, true, false, not, Option, none, some, All,
  is_some, beq, string_eq, arith, if_rule, option_rule, if◌then◌else◌, Bool-cases, inl, inr,
}
use vllm_source_gateway.Dict.{get, put, get-put, contains}
use vllm_source_gateway.Models.{UpstreamTarget}
use vllm_source_gateway.Routing.Registry.{
  RoutingRegistry, UpstreamHealthState, Routed, done, fails, set_upstream_health, replace_state,
}
use vllm_source_gateway.Health.{
  UpstreamProbeResult, Prober, probe_upstream, report_of, record_results,
}

-- What one probe makes of a state: all is the probe's own, but for the time of the last success, which
-- stays over a failure.
abbrev pub after_probe : Prober → UpstreamHealthState → UpstreamTarget → UpstreamHealthState
after_probe p previous u =
    let result = probe_upstream p u in
    record {
      healthy = result.healthy;
      last_probe_at = some result.probed_at;
      last_success_at = if result.healthy then some result.probed_at else previous.last_success_at;
      last_status_code = result.status_code;
      last_error = result.error;
    }

-- The state of the upstream of that name after its probes, `previous` before them.
unfoldable pub probed_state :
    Prober → (name : String) → UpstreamHealthState → List UpstreamTarget → UpstreamHealthState
probed_state p name previous [] = previous
probed_state p name previous (u ∷ us) =
    if beq u.name name
    then probed_state p name (after_probe p previous u) us
    else probed_state p name previous us

replace_state-after_probe :
    (p : Prober) (previous : UpstreamHealthState) (u : UpstreamTarget)
    → replace_state previous (report_of (probe_upstream p u)) ≡ after_probe p previous u
unfolding replace_state report_of
replace_state-after_probe p previous u = go (probe_upstream p u)
  where
    go :
        (r : UpstreamProbeResult)
        → replace_state previous (report_of r) ≡ record {
          healthy = r.healthy;
          last_probe_at = some r.probed_at;
          last_success_at = if r.healthy then some r.probed_at else previous.last_success_at;
          last_status_code = r.status_code;
          last_error = r.error;
        }
    go r = elim (Bool-cases r.healthy) [ inl up ↦ rw up refl | inr down ↦ rw down refl ]

abbrev pub after_probes :
    Prober → String → List UpstreamTarget → Option UpstreamHealthState → Option UpstreamHealthState
after_probes p name us none = none
after_probes p name us (some state) = some (probed_state p name state us)

-- What the loop of a refresh comes to.
pub record Records (p : Prober) (r : RoutingRegistry) (us : List UpstreamTarget)
    (result : Routed (Unit {0}) × RoutingRegistry) : Type 0 where
  pub finished : result.0 ≡ done tt
  pub states :
      (name : String)
      → get result.1.health_by_name name ≡ after_probes p name us (get r.health_by_name name)
  pub pools : result.1.model_to_upstreams ≡ r.model_to_upstreams
  pub cursors : result.1.round_robin_index ≡ r.round_robin_index

-- The registry has the upstream and its health.
abbrev pub IsRegistered : RoutingRegistry → UpstreamTarget → Type 0
IsRegistered r u =
    (is_some (get r.upstreams_by_name u.name) ≡ true)
    × (is_some (get r.health_by_name u.name) ≡ true)

abbrev with_state : RoutingRegistry → String → UpstreamHealthState → RoutingRegistry
with_state r name state = record r { health_by_name = put r.health_by_name name state }

still-IsRegistered :
    (r : RoutingRegistry) (name : String) (state : UpstreamHealthState) (us : List UpstreamTarget)
    → All (IsRegistered r) us
    → All (IsRegistered (with_state r name state)) us
still-IsRegistered r name state [] known = tt
still-IsRegistered r name state (u ∷ us) known = (
  (known.0.0, ground (arith, get-put r.health_by_name name u.name state, known.0.1)),
  still-IsRegistered r name state us known.1,
)

-- The rest of the loop after one more state.
after-put :
    (p : Prober) (r : RoutingRegistry) (u : UpstreamTarget) (us : List UpstreamTarget)
    (previous : UpstreamHealthState)
    → get r.health_by_name u.name ≡ some previous
    → (name : String)
    → after_probes p name us (get (put r.health_by_name u.name (after_probe p previous u)) name)
      ≡ after_probes p name (u ∷ us) (get r.health_by_name name)
unfolding probed_state
after-put p r u us previous found name =
    let state = after_probe p previous u in
    elim (Bool-cases (beq u.name name)) [
      | inl same ↦
          let here : u.name ≡ name = (string_eq.test_iff u.name name).0 same in
          let found_here : get r.health_by_name name ≡ some previous =
            subst (λ (n : String). get r.health_by_name n ≡ some previous) here found in
          rw (get-put r.health_by_name u.name name state, same, found_here) (rw same refl)
      | inr other ↦
          rw (get-put r.health_by_name u.name name state, other)
            (go (get r.health_by_name name) other)
    ]
  where
    go :
        (o : Option UpstreamHealthState)
        → beq u.name name ≡ false
        → after_probes p name us o ≡ after_probes p name (u ∷ us) o
    go none other = refl
    go (some s) other = rw other refl

-- Where the registry has each of the probed upstreams, the loop over the results of a refresh ends
-- without an exception, and for each name the health is what the results of its probes, in order,
-- make of the health before: all of it is what the last probe said, but for the time of the last
-- success, which stays over failures; no pool and no round-robin index changes.
pub record_results-Records :
    (p : Prober) (r : RoutingRegistry) (us : List UpstreamTarget)
    → All (IsRegistered r) us
    → Records p r us (record_results p r us)
unfolding record_results set_upstream_health probed_state
record_results-Records p r [] known = record {
  finished = refl;
  states = λ name. go name (get r.health_by_name name);
  pools = refl;
  cursors = refl;
}
  where
    go : (name : String) (o : Option UpstreamHealthState) → o ≡ after_probes p name [] o
    go name none = refl
    go name (some s) = refl
record_results-Records p r (u ∷ us) known =
    let P : Routed (Unit {0}) × RoutingRegistry → Type 0 = λ s.
      Records p r (u ∷ us)
        (elim s.0 [ fails error ↦ (fails error, s.1) | done one ↦ record_results p s.1 us ]) in
    let report = report_of (probe_upstream p u) in
    if_rule P (not (contains r.upstreams_by_name u.name)) _ _
      (λ missing. absurd (ground (arith, missing, known.0.0)))
      λ _.
        option_rule P (get r.health_by_name u.name) _ _
          (λ missing. absurd (ground (arith, missing, known.0.1)))
          λ previous found.
            let state = after_probe p previous u in
            let rest =
              record_results-Records p (with_state r u.name state) us
                (still-IsRegistered r u.name state us known.1) in
            subst
              (λ (state : UpstreamHealthState).
                Records p r (u ∷ us) (record_results p (with_state r u.name state) us))
              (sym (replace_state-after_probe p previous u))
              (record {
                finished = rest.finished;
                states = λ name. rest.states name ∙ after-put p r u us previous found name;
                pools = rest.pools;
                cursors = rest.cursors;
              })
