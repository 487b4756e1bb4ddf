-- ===== src/Routing/Fairness.antt =====
-- Round robin: selections with nothing excluded go through a healthy pool in turn.
use native.Mathlib.Nat.{mod-lt, mod-eq_of_lt, mod-add-mod}
use vllm_source_gateway.Base.{
  ℕ, zero, suc, String, ◌≡◌, sym, ap, ◌∙◌, ◌<◌, ◌+◌, ◌%◌, List, [], true, some, All, length,
  get_elem?, beq_refl, string_eq, arith,
}
use vllm_source_gateway.Dict.{get, get_or, get_or-put}
use vllm_source_gateway.Models.{UpstreamTarget}
use vllm_source_gateway.Routing.Registry.{RoutingRegistry, done, is_healthy}
use vllm_source_gateway.Routing.Select.{select_upstream, Selected}
use vllm_source_gateway.Routing.WellFormed.{IsWellFormed}
use vllm_source_gateway.Routing.Scan.{Skips, get_elem?-some, All-get_elem?}
use vllm_source_gateway.Routing.Selection.{refuses, selects, select_upstream-Selects, cursor, moved}
use vllm_source_gateway.Routing.Preserved.{
  SameHealth, select_upstream-SameHealth, same-IsWellFormed,
}

-- The registry after `k` selections for the model.
unfoldable pub after_selections : RoutingRegistry → String → ℕ → RoutingRegistry
after_selections r m zero = r
after_selections r m (suc k) = (select_upstream (after_selections r m k) m []).1

-- Every upstream of the pool is healthy.
abbrev pub IsAllHealthy : RoutingRegistry → List UpstreamTarget → Type 0
IsAllHealthy r pool = All (λ u. is_healthy r u ≡ true) pool

module _ (m : String) (pool : List UpstreamTarget) where
  -- The facts that a selection keeps.
  record Serves (r : RoutingRegistry) : Type 0 where
    well_formed : IsWellFormed r
    is_pool : get r.model_to_upstreams m ≡ some pool
    healthy : IsAllHealthy r pool

  same-Serves : {r q : RoutingRegistry} → SameHealth r q → Serves r → Serves q
  same-Serves s v = record {
    well_formed = same-IsWellFormed s v.well_formed;
    is_pool = rw s.index v.is_pool;
    healthy = rw s.health v.healthy;
  }

  -- The next selection is the upstream at the cursor, and the cursor goes on by one.
  record Turn (r : RoutingRegistry) : Type 0 where
    upstream : UpstreamTarget
    here : get_elem? pool (cursor r m [] pool) ≡ some upstream
    result : (select_upstream r m []).0 ≡ done (record { model_name = m; upstream = upstream })
    next : cursor (select_upstream r m []).1 m [] pool ≡ (cursor r m [] pool + 1) % length pool

  module _ (r : RoutingRegistry) (v : Serves r) where
    cursor-lt : cursor r m [] pool < length pool
    cursor-lt = mod-lt (get_or r.round_robin_index m 0) (v.well_formed.pools m pool v.is_pool).1

    at_cursor : (cursor r m [] pool + 0) % length pool ≡ cursor r m [] pool
    at_cursor =
        let e : cursor r m [] pool + 0 ≡ cursor r m [] pool = omega arith in
        ap (λ (t : ℕ). t % length pool) e ∙ mod-eq_of_lt cursor-lt

    healthy_at : (i : ℕ) (u : UpstreamTarget) → get_elem? pool i ≡ some u → is_healthy r u ≡ true
    healthy_at i u at = All-get_elem? (λ w. is_healthy r w ≡ true) pool i u v.healthy at

    cursor-moved : (i : ℕ) → cursor (moved r m [] pool i) m [] pool ≡ (i + 1) % length pool
    cursor-moved i =
        ap (λ (t : ℕ). t % length pool)
          (get_or-put r.round_robin_index m m ((i + 1) % length pool) 0 ∙ rw beq_refl)
        ∙ mod-eq_of_lt (mod-lt (i + 1) (v.well_formed.pools m pool v.is_pool).1)

    first-Turn :
        (k : ℕ) (u : UpstreamTarget)
        → get_elem? pool ((cursor r m [] pool + k) % length pool) ≡ some u
        → ((j : ℕ) → j < k → Skips r pool (cursor r m [] pool) [] j)
        → select_upstream r m [] ≡ (
          done (record { model_name = m; upstream = u }),
          moved r m [] pool ((cursor r m [] pool + k) % length pool),
        )
        → Turn r
    first-Turn zero u at skips e = record {
      upstream = u;
      here = ap (get_elem? pool) (sym at_cursor) ∙ at;
      result = ap (λ s. s.0) e;
      next =
          ap (λ (s : Selected). cursor s.1 m [] pool) e
          ∙ cursor-moved _
          ∙ ap (λ (t : ℕ). (t + 1) % length pool) at_cursor;
    }
    first-Turn (suc k) u at skips e =
        let (w, at_w) = get_elem?-some pool (cursor r m [] pool) cursor-lt in
        absurd (
          ground (
            arith,
            healthy_at _ w at_w,
            skips 0 (omega arith) w (ap (get_elem? pool) at_cursor ∙ at_w),
          ))

    turn : Turn r
    turn = elim (select_upstream-Selects r m [] pool v.well_formed v.is_pool) [
      | refuses none_left e ↦
          let (w, at_w) = get_elem?-some pool (cursor r m [] pool) cursor-lt in
          absurd (ground (arith, healthy_at _ w at_w, none_left _ w at_w))
      | selects k u hk at ok skips e ↦ first-Turn k u at skips e
    ]

  Serves-after : (r : RoutingRegistry) (k : ℕ) → Serves r → Serves (after_selections r m k)
  unfolding after_selections
  Serves-after r zero v = v
  Serves-after r (suc k) v =
      same-Serves (select_upstream-SameHealth (after_selections r m k) m []) (Serves-after r k v)

  cursor-after :
      (r : RoutingRegistry) (k : ℕ)
      → Serves r
      → cursor (after_selections r m k) m [] pool ≡ (cursor r m [] pool + k) % length pool
  unfolding after_selections
  cursor-after r zero v = sym (at_cursor r v)
  cursor-after r (suc k) v =
      (turn (after_selections r m k) (Serves-after r k v)).next
      ∙ ap (λ (t : ℕ). (t + 1) % length pool) (cursor-after r k v)
      ∙ mod-add-mod (cursor r m [] pool + k) (length pool) 1
      ∙ ap (λ (t : ℕ). t % length pool) (omega arith)

-- For a well-formed registry and a model whose upstreams `pool` are all healthy, the selections with
-- nothing excluded go round: after `k` of them the next one returns the upstream `k` places behind
-- the first one's, modulo the size of the pool.
pub round_robin :
    (r : RoutingRegistry) (m : String) (pool : List UpstreamTarget) (k : ℕ)
    → IsWellFormed r
    → get r.model_to_upstreams m ≡ some pool
    → IsAllHealthy r pool
    → (u : UpstreamTarget) × (get_elem? pool ((cursor r m [] pool + k) % length pool) ≡ some u)
      × ((select_upstream (after_selections r m k) m []).0
          ≡ done (record { model_name = m; upstream = u }))
round_robin r m pool k well_formed is_pool healthy =
    let v : Serves m pool r = record {
      well_formed = well_formed;
      is_pool = is_pool;
      healthy = healthy;
    } in
    let t = turn m pool (after_selections r m k) (Serves-after m pool r k v) in
    (t.upstream, ap (get_elem? pool) (sym (cursor-after m pool r k v)) ∙ t.here, t.result)
