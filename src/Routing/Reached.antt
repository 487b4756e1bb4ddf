-- ===== src/Routing/Reached.antt =====
-- Every upstream of a healthy pool gets its turn.
use native.Mathlib.Nat.{mod-lt, mod-eq_of_lt, mod-eq-sub-mod}
use vllm_source_gateway.Base.{
  ℕ, String, ◌≡◌, sym, ap, ◌∙◌, ◌<◌, ◌+◌, ◌-◌, ◌%◌, List, some, some_inj, length, get_elem?,
  string_eq, arith, leb, Bool-cases, inl, inr, [],
}
use vllm_source_gateway.Dict.{get, get_or}
use vllm_source_gateway.Models.{UpstreamTarget}
use vllm_source_gateway.Routing.Registry.{RoutingRegistry, done}
use vllm_source_gateway.Routing.Select.{select_upstream}
use vllm_source_gateway.Routing.WellFormed.{IsWellFormed}
use vllm_source_gateway.Routing.Selection.{cursor}
use vllm_source_gateway.Routing.Fairness.{after_selections, IsAllHealthy, round_robin}

once_round : (i n : ℕ) → (i + n) % n ≡ ((i + n) - n) % n
once_round i n = mod-eq-sub-mod (omega arith)

-- From a place below `n`, each place below `n` is fewer than `n` steps of the circle away.
steps_to : (c i n : ℕ) → c < n → i < n → (k : ℕ) × (k < n) × ((c + k) % n ≡ i)
steps_to c i n hc hi = elim (Bool-cases (leb c i)) [
  | inl before ↦
      (i - c, ground (arith, hi), ap (λ (t : ℕ). t % n) (ground (arith, before)) ∙ mod-eq_of_lt hi)
  | inr behind ↦
      let k = (i + n) - c in
      let around : c + k ≡ i + n = ground (arith, hc) in
      let rest : (i + n) - n ≡ i = omega arith in
      (
        k,
        ground (arith, behind, hc),
        ap (λ (t : ℕ). t % n) around
            ∙ once_round i n
            ∙ ap (λ (t : ℕ). t % n) rest
            ∙ mod-eq_of_lt hi,
      )
]

-- For a well-formed registry and a model whose upstreams `pool` are all healthy, each upstream of
-- the pool is returned by some selection with nothing excluded, after fewer others than the pool has
-- upstreams: none is starved.
pub round_robin-reaches :
    (r : RoutingRegistry) (m : String) (pool : List UpstreamTarget) (i : ℕ) (u : UpstreamTarget)
    → IsWellFormed r
    → get r.model_to_upstreams m ≡ some pool
    → IsAllHealthy r pool
    → i < length pool
    → get_elem? pool i ≡ some u
    → (k : ℕ) × (k < length pool)
      × ((select_upstream (after_selections r m k) m []).0
          ≡ done (record { model_name = m; upstream = u }))
round_robin-reaches r m pool i u well_formed is_pool healthy hi at =
    let (k, hk, lands) =
      steps_to (cursor r m [] pool) i (length pool)
        (mod-lt (get_or r.round_robin_index m 0) (well_formed.pools m pool is_pool).1) hi in
    let (w, at_w, result) = round_robin r m pool k well_formed is_pool healthy in
    let same : w ≡ u = some_inj (sym at_w ∙ ap (get_elem? pool) lands ∙ at) in
    (
      k,
      hk,
      result ∙ ap (λ (t : UpstreamTarget). done (record { model_name = m; upstream = t })) same,
    )
