-- ===== src/Config/Known.antt =====
-- The models of the registry that a configuration makes.
use vllm_source_gateway.Base.{
  String, ◌≡◌, refl, ◌∙◌, List, [], ◌∷◌, ◌++◌, map, Bool, true, false, ◌||◌, is_some, string_eq,
  arith, pair_eq,
}
use vllm_source_gateway.Dict.{Dict, empty, get, put, get_or, get-put, get-empty}
use vllm_source_gateway.Models.{UpstreamTarget}
use vllm_source_gateway.Routing.Registry.{
  RoutingRegistry, index_upstream, build_model_index, new, get_model_upstreams, Routed, done, fails,
}
use vllm_source_gateway.Config.Upstream.{UpstreamConfig, target_of, from_config}
use vllm_source_gateway.Config.App.{is_in, all_models}

abbrev Index : Type 0
Index = Dict String (List UpstreamTarget)

index_upstream-is_in :
    (u : UpstreamTarget) (ms : List String) (index : Index) (m : String)
    → is_some (get (index_upstream u ms index) m) ≡ (is_in m ms || is_some (get index m))
unfolding index_upstream
index_upstream-is_in u [] index m = refl
index_upstream-is_in u (n ∷ ms) index m = ground (
  arith,
  index_upstream-is_in u ms (put index n (get_or index n [] ++ u ∷ [])) m,
  get-put index n m (get_or index n [] ++ u ∷ []),
)

is_in-append : (m : String) (xs ys : List String) → is_in m (xs ++ ys) ≡ (is_in m xs || is_in m ys)
is_in-append m [] ys = refl
is_in-append m (x ∷ xs) ys = ground (arith, is_in-append m xs ys)

build_model_index-is_in :
    (us : List UpstreamConfig) (index : Index) (m : String)
    → is_some (get (build_model_index (map target_of us) index) m)
      ≡ (is_in m (all_models us) || is_some (get index m))
unfolding build_model_index target_of
build_model_index-is_in [] index m = refl
build_model_index-is_in (u ∷ us) index m = ground (
  arith,
  build_model_index-is_in us (index_upstream (target_of u) u.models index) m,
  index_upstream-is_in (target_of u) u.models index m,
  is_in-append m u.models (all_models us),
)

-- What `get_model_upstreams` answers.
abbrev pub is_done : {A : Type 0} → Routed A → Bool
is_done (done a) = true
is_done (fails error) = false

get_model_upstreams-is_done :
    (r : RoutingRegistry) (m : String)
    → is_done (get_model_upstreams r m) ≡ is_some (get r.model_to_upstreams m)
unfolding get_model_upstreams
get_model_upstreams-is_done r m = ground arith

-- The registry that is made from the configuration knows a model exactly if some upstream of the
-- configuration declares it: every declared model can be requested, and no other one.
pub get_model_upstreams-from_config :
    (us : List UpstreamConfig) (m : String)
    → is_done (get_model_upstreams (from_config us) m) ≡ is_in m (all_models us)
unfolding from_config new
get_model_upstreams-from_config us m =
    get_model_upstreams-is_done (from_config us) m
    ∙ build_model_index-is_in us empty m
    ∙ ground (arith, get-empty {V = List UpstreamTarget} m)
