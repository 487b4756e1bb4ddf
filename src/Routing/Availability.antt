-- ===== src/Routing/Availability.antt =====
-- What `list_models` says of a model against what `select_upstream` does with it.
use vllm_source_gateway.Base.{
  ℕ, zero, suc, String, ◌≡◌, ◌↔◌, refl, ap, ◌<◌, ◌≤◌, List, [], ◌∷◌, Bool, true, false, some,
  count_by, length, get_elem?, string_eq, arith, some_inj,
}
use vllm_source_gateway.Dict.{get}
use vllm_source_gateway.Models.{UpstreamTarget, SelectedUpstream, online, status}
use vllm_source_gateway.Routing.Registry.{RoutingRegistry, done, is_healthy, availability}
use vllm_source_gateway.Routing.Select.{select_upstream}
use vllm_source_gateway.Routing.WellFormed.{IsWellFormed}
use vllm_source_gateway.Routing.Selection.{refuses, selects, select_upstream-Selects}

module _ {A : Type 0} (p : A → Bool) where
  count_by-none :
      (xs : List A) → ((i : ℕ) (x : A) → get_elem? xs i ≡ some x → p x ≡ false) → count_by p xs ≡ 0
  count_by-none [] h = refl
  count_by-none (x ∷ xs) h = ground (arith, h 0 x refl, count_by-none xs (λ i y e. h (suc i) y e))

  count_by-pos :
      (xs : List A) (i : ℕ) (x : A) → get_elem? xs i ≡ some x → p x ≡ true → 0 < count_by p xs
  count_by-pos [] i x e h = absurd (ground (arith, e))
  count_by-pos (y ∷ xs) zero x e h = ground (arith, some_inj e)
  count_by-pos (y ∷ xs) (suc i) x e h = ground (arith, count_by-pos xs i x e h)

  count_by-le : (xs : List A) → count_by p xs ≤ length xs
  count_by-le [] = omega arith
  count_by-le (x ∷ xs) = ground (arith, count_by-le xs)

-- For a well-formed registry and a model with the upstreams `pool`, the status of the model is
-- `online` exactly when `select_upstream` with nothing excluded returns an upstream.
pub status-select_upstream :
    (r : RoutingRegistry) (m : String) (pool : List UpstreamTarget)
    → IsWellFormed r
    → get r.model_to_upstreams m ≡ some pool
    → (status (availability r (m, pool)) ≡ online)
      ↔ ((s : SelectedUpstream) × ((select_upstream r m []).0 ≡ done s))
unfolding status availability
status-select_upstream r m pool v is_pool = elim (select_upstream-Selects r m [] pool v is_pool) [
  | refuses none_left e ↦
      let empty : count_by (is_healthy r) pool ≡ 0 = count_by-none (is_healthy r) pool none_left in
      ((λ h. absurd (ground (arith, empty))), (λ s. absurd (ground (arith, e, s.1))))
  | selects k u hk at ok skips e ↦
      let some_healthy : 0 < count_by (is_healthy r) pool =
        count_by-pos (is_healthy r) pool _ u at ok in
      (
        (λ h. (record { model_name = m; upstream = u }, ap (λ s. s.0) e)),
        (λ s. ground (arith, some_healthy)),
      )
]
