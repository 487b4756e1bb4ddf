-- ===== src/Routes/Ready.antt =====
-- What /readyz says against what `select_upstream` does.
use vllm_source_gateway.Base.{
  String, ◌≡◌, refl, ap, ◌∙◌, List, [], ◌∷◌, map, Bool, true, false, Option, none, some, any,
  count_by, ltb, string_eq, arith, if◌then◌else◌,
}
use vllm_source_gateway.Dict.{get, items, any-items}
use vllm_source_gateway.Models.{UpstreamTarget, SelectedUpstream}
use vllm_source_gateway.Sorting.{insert_by_key, sort_by_key}
use vllm_source_gateway.Routing.Registry.{
  RoutingRegistry, UpstreamHealthState, done, is_healthy, snapshot_of, health_snapshots,
}
use vllm_source_gateway.Routing.Select.{select_upstream}
use vllm_source_gateway.Routing.WellFormed.{IsWellFormed}
use vllm_source_gateway.Routing.Selection.{refuses, selects, select_upstream-Selects}
use vllm_source_gateway.Routes.{build_readiness_payload}

module _ {V : Type 0} (p : String × V → Bool) where
  any-insert :
      (e : String × V) (es : List (String × V)) → any p (insert_by_key e es) ≡ any p (e ∷ es)
  unfolding insert_by_key
  any-insert e [] = refl
  any-insert e (f ∷ es) = ground (arith, any-insert e es)

  pub any-sort : (es : List (String × V)) → any p (sort_by_key es) ≡ any p es
  unfolding sort_by_key
  any-sort [] = refl
  any-sort (e ∷ es) = ground (arith, any-insert e (sort_by_key es), any-sort es)

abbrev is_up : String × UpstreamHealthState → Bool
is_up e = e.1.healthy

count-snapshots :
    (es : List (String × UpstreamHealthState))
    → ltb 0 (count_by (λ s. s.healthy) (map snapshot_of es)) ≡ any is_up es
unfolding snapshot_of
count-snapshots [] = refl
count-snapshots (e ∷ es) = ground (arith, count-snapshots es)

-- The service is ready exactly if the entry of some upstream says healthy.
ready-any :
    (r : RoutingRegistry)
    → (build_readiness_payload r).0 ≡ (if any is_up (items r.health_by_name) then 200 else 503)
unfolding build_readiness_payload health_snapshots
ready-any r =
    ap (λ (b : Bool). if b then 200 else 503)
      (count-snapshots (sort_by_key (items r.health_by_name))
        ∙ any-sort is_up (items r.health_by_name))

healthy-any :
    (r : RoutingRegistry) (u : UpstreamTarget)
    → is_healthy r u ≡ true
    → any is_up (items r.health_by_name) ≡ true
healthy-any r u h = go (get r.health_by_name u.name) refl h
  where
    go :
        (o : Option UpstreamHealthState)
        → get r.health_by_name u.name ≡ o
        → (elim o [ none ↦ false | some state ↦ state.healthy ]) ≡ true
        → any is_up (items r.health_by_name) ≡ true
    go none e k = absurd (ground (arith, k))
    go (some state) e k = any-items is_up r.health_by_name u.name state e k

-- Where the registry is well formed and a selection for a model of it returns an upstream, whatever
-- is excluded, /readyz answers 200: where it answers 503, no request can be served.
pub select_upstream-build_readiness_payload :
    (r : RoutingRegistry) (m : String) (pool : List UpstreamTarget) (excluded : List String)
    (s : SelectedUpstream)
    → IsWellFormed r
    → get r.model_to_upstreams m ≡ some pool
    → (select_upstream r m excluded).0 ≡ done s
    → (build_readiness_payload r).0 ≡ 200
select_upstream-build_readiness_payload r m pool excluded s v is_pool found =
    elim (select_upstream-Selects r m excluded pool v is_pool) [
      | refuses none_left e ↦ absurd (ground (arith, e, found))
      | selects k u hk at ok skips e ↦ rw (ready-any r, healthy-any r u (ground (arith, ok))) refl
    ]
