-- ===== src/Routing/Preserved.antt =====
-- Selections and probes keep a registry well formed.
use vllm_source_gateway.Base.{
  ℕ, String, ◌≡◌, refl, sym, ◌∙◌, List, not, Option, none, some, is_some, All, [], ◌∷◌, length,
  string_eq, arith, if_rule, option_rule, ◌==◌,
}
use vllm_source_gateway.Dict.{Dict, get, put, get-put, contains}
use vllm_source_gateway.Models.{UpstreamTarget}
use vllm_source_gateway.Routing.Registry.{
  RoutingRegistry, UpstreamHealthState, HealthReport, Routed, done, fails, set_upstream_health,
  replace_state, new,
}
use vllm_source_gateway.Routing.Select.{select_upstream, conclude, Selected}
use vllm_source_gateway.Routing.WellFormed.{IsWellFormed, IsKnown, new-IsWellFormed}

-- `q` has the upstreams and the health of `r`.
pub record SameHealth (r q : RoutingRegistry) : Type 0 where
  pub names : q.upstreams_by_name ≡ r.upstreams_by_name
  pub index : q.model_to_upstreams ≡ r.model_to_upstreams
  pub health : q.health_by_name ≡ r.health_by_name

conclude-SameHealth :
    (r : RoutingRegistry) (m : String) (n : ℕ) (result : Routed (Option (ℕ × UpstreamTarget)))
    → SameHealth r (conclude r m n result).1
unfolding conclude
conclude-SameHealth r m n (fails error) = record { names = refl; index = refl; health = refl }
conclude-SameHealth r m n (done none) = record { names = refl; index = refl; health = refl }
conclude-SameHealth r m n (done (some (i, u))) = record {
  names = refl;
  index = refl;
  health = refl;
}

pub select_upstream-SameHealth :
    (r : RoutingRegistry) (m : String) (excluded : List String)
    → SameHealth r (select_upstream r m excluded).1
unfolding select_upstream
select_upstream-SameHealth r m excluded =
    let P : Selected → Type 0 = λ s. SameHealth r s.1 in
    let same : SameHealth r r = record { names = refl; index = refl; health = refl } in
    option_rule P (get r.model_to_upstreams m) _ _ (λ _. same)
      λ pool _.
        if_rule P (length pool == 0) _ _ (λ _. same) λ _. conclude-SameHealth r m (length pool) _

pub same-IsWellFormed : {r q : RoutingRegistry} → SameHealth r q → IsWellFormed r → IsWellFormed q
same-IsWellFormed s v = record {
  pools = λ m pool. rw (s.index, s.health) (v.pools m pool);
  names = λ name. rw (s.names, s.health) (v.names name);
}

-- A new health state under a name that is there.
module _ (health : Dict String UpstreamHealthState) (name : String)
    (previous state : UpstreamHealthState) (found : get health name ≡ some previous) where
  same_entries : (k : String) → is_some (get (put health name state) k) ≡ is_some (get health k)
  same_entries k = ground (arith, get-put health name k state, found, string_eq.test_iff name k)

  IsKnown-after :
      (pool : List UpstreamTarget)
      → All (IsKnown health) pool
      → All (IsKnown (put health name state)) pool
  IsKnown-after [] h = tt
  IsKnown-after (u ∷ pool) h = (same_entries u.name ∙ h.0, IsKnown-after pool h.1)

set_upstream_health-IsWellFormed :
    (r : RoutingRegistry) (name : String) (report : HealthReport)
    → IsWellFormed r
    → IsWellFormed (set_upstream_health r name report).1
unfolding set_upstream_health
set_upstream_health-IsWellFormed r name report v =
    let P : Routed (Unit {0}) × RoutingRegistry → Type 0 = λ s. IsWellFormed s.1 in
    if_rule P (not (contains r.upstreams_by_name name)) _ _ (λ _. v)
      λ _.
        option_rule P (get r.health_by_name name) _ _ (λ _. v)
          λ previous found.
            let state = replace_state previous report in
            record {
              pools = λ m pool is_pool.
                  let (known, some_pool) = v.pools m pool is_pool in
                  (IsKnown-after r.health_by_name name previous state found pool known, some_pool);
              names =
                  λ k. v.names k ∙ sym (same_entries r.health_by_name name previous state found k);
            }

-- One method call that changes the registry.
pub data Call : Type 0 where
  selects : (model_name : String) → (excluded : List String) → Call
  reports : (upstream_name : String) → HealthReport → Call

unfoldable pub perform : RoutingRegistry → Call → RoutingRegistry
perform r (selects m excluded) = (select_upstream r m excluded).1
perform r (reports name report) = (set_upstream_health r name report).1

unfoldable pub run : RoutingRegistry → List Call → RoutingRegistry
unfolding perform
run r [] = r
run r (call ∷ calls) = run (perform r call) calls

perform-IsWellFormed :
    (r : RoutingRegistry) (call : Call) → IsWellFormed r → IsWellFormed (perform r call)
unfolding perform
perform-IsWellFormed r (selects m excluded) v =
    same-IsWellFormed (select_upstream-SameHealth r m excluded) v
perform-IsWellFormed r (reports name report) v = set_upstream_health-IsWellFormed r name report v

-- Any selections and health reports keep a well-formed registry well formed: each pool is non-empty
-- and each of its upstreams has a health entry, as has exactly each known upstream name.
pub run-IsWellFormed :
    (r : RoutingRegistry) (calls : List Call) → IsWellFormed r → IsWellFormed (run r calls)
unfolding run
run-IsWellFormed r [] v = v
run-IsWellFormed r (call ∷ calls) v =
    run-IsWellFormed (perform r call) calls (perform-IsWellFormed r call v)

-- After the constructor, whatever is selected and reported, the registry is well formed.
pub run-new-IsWellFormed :
    (us : List UpstreamTarget) (calls : List Call) → IsWellFormed (run (new us) calls)
run-new-IsWellFormed us calls = run-IsWellFormed (new us) calls (new-IsWellFormed us)
