-- ===== src/Routing/Select.antt =====
-- `select_upstream`: round robin over the upstreams of a model, past those that are excluded or not
-- healthy.
use vllm_source_gateway.Base.{
  ℕ, zero, suc, String, List, ◌+◌, ◌%◌, Bool, not, Option, none, some, any, beq, string_eq, length,
  get_elem?, ◌==◌, if◌then◌else◌,
}
use vllm_source_gateway.Dict.{get, put, get_or}
use vllm_source_gateway.Models.{UpstreamTarget, SelectedUpstream}
use vllm_source_gateway.Routing.Registry.{
  RoutingRegistry, Routed, done, fails, crash, unknown_model, no_healthy_upstream,
}

-- candidate.name in excluded_names
abbrev pub is_excluded : List String → UpstreamTarget → Bool
is_excluded excluded u = any (λ name. beq name u.name) excluded

-- The loop over `range(pool_size)`: `left` rounds are to come, the next one is `offset`.
unfoldable pub scan :
    RoutingRegistry
    → (pool : List UpstreamTarget) (start : ℕ) (excluded : List String) (left offset : ℕ)
    → Routed (Option (ℕ × UpstreamTarget))
scan r pool start excluded zero offset = done none
scan r pool start excluded (suc left) offset =
    let rest = scan r pool start excluded left (suc offset) in
    let index = (start + offset) % length pool in
    elim (get_elem? pool index) [
      | none ↦ fails crash
      | some candidate ↦
          if is_excluded excluded candidate
          then rest
          else elim (get r.health_by_name candidate.name) [
            | none ↦ fails crash
            | some state ↦ if not state.healthy then rest else done (some (index, candidate))
          ]
    ]

abbrev pub Selected : Type 0
Selected = Routed SelectedUpstream × RoutingRegistry

-- What follows the loop.
unfoldable pub conclude :
    RoutingRegistry → String → ℕ → Routed (Option (ℕ × UpstreamTarget)) → Selected
conclude r model_name pool_size (fails error) = (fails error, r)
conclude r model_name pool_size (done none) = (fails (no_healthy_upstream model_name), r)
conclude r model_name pool_size (done (some (selected_index, selected))) = (
  done (record { model_name = model_name; upstream = selected }),
  record r {
    round_robin_index = put r.round_robin_index model_name ((selected_index + 1) % pool_size);
  },
)

unfoldable pub select_from : RoutingRegistry → String → List String → List UpstreamTarget → Selected
unfolding scan conclude
select_from r model_name excluded pool =
    let pool_size = length pool in
    let start_index = get_or r.round_robin_index model_name 0 % pool_size in
    if pool_size == 0
    then (fails crash, r)
    else conclude r model_name pool_size (scan r pool start_index excluded pool_size 0)

unfoldable pub select_upstream : RoutingRegistry → String → List String → Selected
unfolding select_from
select_upstream r model_name excluded = elim (get r.model_to_upstreams model_name) [
  | none ↦ (fails (unknown_model model_name), r)
  | some pool ↦ select_from r model_name excluded pool
]
