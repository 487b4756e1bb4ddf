-- ===== src/Health/Refreshed.antt =====
-- After a refresh, the health of an upstream is what its own probe says.
use vllm_source_gateway.Base.{
  ◌≡◌, refl, sym, ap, subst, ◌∙◌, List, [], ◌∷◌, Bool, true, false, not, any, All, Option, none,
  some, some_inj, is_some, beq, string_eq, arith, Bool-cases, inl, inr, if◌then◌else◌, if_rule,
}
use vllm_source_gateway.Dict.{get, items}
use vllm_source_gateway.Models.{UpstreamTarget}
use vllm_source_gateway.Sorting.{sort_by_key}
use vllm_source_gateway.Routing.Registry.{
  RoutingRegistry, UpstreamHealthState, Routed, done, is_healthy, health_snapshots,
}
use vllm_source_gateway.Routing.WellFormed.{IsWellFormed}
use vllm_source_gateway.Health.{
  Prober, UpstreamHealthMonitor, Refreshed, probe_upstream, targets_of, record_results,
  record_targets, refresh_all,
}
use vllm_source_gateway.Health.Recorded.{
  probed_state, after_probe, after_probes, Records, IsRegistered, record_results-Records,
}
use vllm_source_gateway.Health.Targets.{
  IsNamed, IsOwn, targets_of-FindsAll, snapshot_names, names-IsTarget, names-here,
}

-- The last probe of an upstream decides.
probed_state-healthy :
    (p : Prober) (r : RoutingRegistry) (u : UpstreamTarget) (previous : UpstreamHealthState)
    (us : List UpstreamTarget)
    → IsOwn r u
    → All (IsOwn r) us
    → (probed_state p u.name previous us).healthy
      ≡ (if any (λ v. beq v.name u.name) us then (probe_upstream p u).healthy else previous.healthy)
unfolding probed_state
probed_state-healthy p r u previous [] own all = refl
probed_state-healthy p r u previous (v ∷ us) own all = elim (Bool-cases (beq v.name u.name)) [
  | inr other ↦ rw other (probed_state-healthy p r u previous us own all.1)
  | inl same ↦
      let here : v.name ≡ u.name = (string_eq.test_iff v.name u.name).0 same in
      let is_u : v ≡ u = some_inj (sym all.0 ∙ ap (get r.upstreams_by_name) here ∙ own) in
      let rest = probed_state-healthy p r u (after_probe p previous v) us own all.1 in
      ground (arith, rest, same, ap (λ (t : UpstreamTarget). (probe_upstream p t).healthy) is_u)
]

registered :
    (r : RoutingRegistry) (us : List UpstreamTarget)
    → IsWellFormed r
    → All (IsOwn r) us
    → All (IsRegistered r) us
registered r [] w own = tt
registered r (u ∷ us) w own =
    let there : is_some (get r.upstreams_by_name u.name) ≡ true = ap is_some own.0 in
    ((there, sym (w.names u.name) ∙ there), registered r us w own.1)

-- What a refresh comes to for one upstream.
pub record IsUpToDate (p : Prober) (u : UpstreamTarget) (refreshed : Refreshed) : Type 0 where
  pub finished : refreshed.0 ≡ done tt
  pub says : is_healthy refreshed.2 u ≡ (probe_upstream p u).healthy

abbrev healthy_of : Option UpstreamHealthState → Bool
healthy_of o = elim o [ none ↦ false | some state ↦ state.healthy ]

recorded-healthy :
    (p : Prober) (r : RoutingRegistry) (u : UpstreamTarget) (us : List UpstreamTarget)
    → IsOwn r u
    → All (IsOwn r) us
    → any (λ v. beq v.name u.name) us ≡ true
    → (state : UpstreamHealthState) → get r.health_by_name u.name ≡ some state
    → Records p r us (record_results p r us)
    → is_healthy (record_results p r us).1 u ≡ (probe_upstream p u).healthy
recorded-healthy p r u us own all here state found records =
    ap healthy_of (records.states u.name)
    ∙ ap (λ (o : Option UpstreamHealthState). healthy_of (after_probes p u.name us o)) found
    ∙ probed_state-healthy p r u state us own all
    ∙ ap (λ (b : Bool). if b then (probe_upstream p u).healthy else state.healthy) here

probed-IsUpToDate :
    (p : Prober) (monitor : UpstreamHealthMonitor) (r : RoutingRegistry) (u : UpstreamTarget)
    (us : List UpstreamTarget) (state : UpstreamHealthState)
    → IsWellFormed r
    → IsOwn r u
    → All (IsOwn r) us
    → any (λ v. beq v.name u.name) us ≡ true
    → get r.health_by_name u.name ≡ some state
    → (targets : Routed (List UpstreamTarget)) → targets ≡ done us
    → IsUpToDate p u ((record_targets p r targets).0, monitor, (record_targets p r targets).1)
unfolding record_targets
probed-IsUpToDate p monitor r u us state w own all here found targets e =
    let records = record_results-Records p r us (registered r us w all) in
    subst
      (λ (o : Routed (List UpstreamTarget)).
        IsUpToDate p u ((record_targets p r o).0, monitor, (record_targets p r o).1))
      (sym e)
      (record {
        finished = records.finished;
        says = recorded-healthy p r u us own all here state found records;
      })

-- For an enabled monitor, a well-formed registry that finds each upstream under its own name, and an
-- upstream of it: the refresh ends without an exception, and afterwards the registry takes the
-- upstream for healthy exactly if the refresh's own probe of it did, whatever was recorded before.
pub refresh_all-IsUpToDate :
    (p : Prober) (monitor : UpstreamHealthMonitor) (r : RoutingRegistry) (u : UpstreamTarget)
    → monitor.enabled ≡ true
    → IsWellFormed r
    → IsNamed r
    → get r.upstreams_by_name u.name ≡ some u
    → IsUpToDate p u (refresh_all p monitor r)
unfolding refresh_all record_targets health_snapshots
refresh_all-IsUpToDate p monitor r u on w named own =
    if_rule (IsUpToDate p u) (not monitor.enabled) _ _ (λ off. absurd (ground (arith, on, off)))
      λ _.
        let sorted = snapshot_names (sort_by_key (items r.health_by_name)) in
        let (us, e, all, same) = targets_of-FindsAll r sorted named (names-IsTarget r w) in
        let here : is_some (get r.health_by_name u.name) ≡ true =
          sym (w.names u.name) ∙ ap is_some own in
        let (state, found) = some_of (get r.health_by_name u.name) here in
        probed-IsUpToDate p (record monitor { has_client = true }) r u us state w own all
          (same u.name ∙ names-here r u.name state found) found (targets_of r sorted) e
  where
    some_of :
        (o : Option UpstreamHealthState)
        → is_some o ≡ true
        → (state : UpstreamHealthState) × (o ≡ some state)
    some_of none there = absurd (ground (arith, there))
    some_of (some state) there = (state, refl)
