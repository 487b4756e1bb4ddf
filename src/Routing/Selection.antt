-- ===== src/Routing/Selection.antt =====
-- `select_upstream` against its promise: the next healthy upstream after the last one chosen.
use native.Mathlib.Nat.{mod-lt, mod-eq_of_lt, add-mod_right}
use native.Mathlib.Decide.{dec_le}
use vllm_source_gateway.Base.{
  ℕ, zero, suc, String, ◌≡◌, sym, ap, ◌∙◌, subst, ◌<◌, ◌+◌, ◌-◌, ◌%◌, List, [], ◌∷◌, true, false,
  Option, some, length, get_elem?, string_eq, arith, if_rule, option_rule, ◌==◌, some_inj,
}
use vllm_source_gateway.Dict.{get, put, get_or}
use vllm_source_gateway.Models.{UpstreamTarget}
use vllm_source_gateway.Routing.Registry.{RoutingRegistry, Routed, done, fails, no_healthy_upstream}
use vllm_source_gateway.Routing.Select.{select_upstream, select_from, conclude, Selected}
use vllm_source_gateway.Routing.WellFormed.{IsWellFormed}
use vllm_source_gateway.Routing.Scan.{is_eligible, Skips, Scans, exhausted, chosen, scan-Scans}

-- Every position is the candidate of some round.
round_of : (start i n : ℕ) → start < n → i < n → (j : ℕ) × (j < n) × ((start + j) % n ≡ i)
round_of start i n hs hi = elim (dec_le start i) [
  | yes p ↦
      let e : start + (i - start) ≡ i = omega arith in
      (i - start, omega arith, ap (λ (t : ℕ). t % n) e ∙ mod-eq_of_lt hi)
  | no p ↦
      let e : start + (i + n - start) ≡ i + n = omega arith in
      (i + n - start, omega arith, ap (λ (t : ℕ). t % n) e ∙ add-mod_right i n ∙ mod-eq_of_lt hi)
]

get_elem?-lt : {A : Type 0} (xs : List A) (i : ℕ) (x : A) → get_elem? xs i ≡ some x → i < length xs
get_elem?-lt [] i x e = absurd (ground (arith, e))
get_elem?-lt (y ∷ xs) zero x e = omega arith
get_elem?-lt (y ∷ xs) (suc i) x e = omega (arith, get_elem?-lt xs i x e)

module _ (r : RoutingRegistry) (m : String) (excluded : List String)
    (pool : List UpstreamTarget) where
  -- Where the search starts: the round-robin index of the model.
  abbrev pub cursor : ℕ
  cursor = get_or r.round_robin_index m 0 % length pool

  abbrev pub moved : ℕ → RoutingRegistry
  moved index = record r {
    round_robin_index = put r.round_robin_index m ((index + 1) % length pool);
  }

  -- What `select_upstream` returns: the first eligible upstream in cyclic order from the cursor, and
  -- the cursor behind it; or an error and the same registry, where no upstream is eligible.
  pub data Selects (result : Selected) : Type 0 where
    refuses :
        ((i : ℕ) (u : UpstreamTarget)
          → get_elem? pool i ≡ some u
          → is_eligible r excluded u ≡ false)
        → result ≡ (fails (no_healthy_upstream m), r)
        → Selects result
    selects :
        (k : ℕ) (u : UpstreamTarget)
        → k < length pool
        → get_elem? pool ((cursor + k) % length pool) ≡ some u
        → is_eligible r excluded u ≡ true
        → ((j : ℕ) → j < k → Skips r pool cursor excluded j)
        → result
          ≡ (done (record { model_name = m; upstream = u }), moved ((cursor + k) % length pool))
        → Selects result

  conclude-Selects :
      (result : Routed (Option (ℕ × UpstreamTarget)))
      → 0 < length pool
      → Scans r pool cursor excluded 0 (length pool) result
      → Selects (conclude r m (length pool) result)
  unfolding conclude
  conclude-Selects result some_pool (exhausted skips e) =
      refuses
        (λ i u at.
          let below : i < length pool = get_elem?-lt pool i u at in
          let (j, hj, here) =
            round_of cursor i (length pool) (mod-lt (get_or r.round_robin_index m 0) some_pool)
              below in
          skips j (omega arith) (omega arith) u (ap (get_elem? pool) here ∙ at))
        (rw e)
  conclude-Selects result some_pool (chosen k u lo hi at ok skips e) =
      selects k u (omega arith) at ok (λ j h. skips j (omega arith) (omega arith)) (rw e)

-- For a well-formed registry and a model with the upstreams `pool`, `select_upstream` returns the
-- first upstream in cyclic order from the model's cursor that is healthy and not excluded, with its
-- cursor moved behind that upstream and nothing else changed; and it raises NoHealthyUpstreamError,
-- with the registry as it was, exactly where every upstream of the pool is unhealthy or excluded.
pub select_upstream-Selects :
    (r : RoutingRegistry) (m : String) (excluded : List String) (pool : List UpstreamTarget)
    → IsWellFormed r
    → get r.model_to_upstreams m ≡ some pool
    → Selects r m excluded pool (select_upstream r m excluded)
unfolding select_upstream
select_upstream-Selects r m excluded pool v is_pool =
    let (known, some_pool) = v.pools m pool is_pool in
    let P : Selected → Type 0 = Selects r m excluded pool in
    option_rule P (get r.model_to_upstreams m) _ _
      (λ missing. absurd (ground (arith, missing, is_pool)))
      λ other found.
        subst (λ (p : List UpstreamTarget). P (select_from r m excluded p))
          (some_inj (sym is_pool ∙ found))
          (if_rule P (length pool == 0) _ _ (λ h. absurd (ground arith))
            λ _. conclude-Selects r m excluded pool _ some_pool (
              scan-Scans r pool (cursor r m excluded pool) excluded (length pool) 0 some_pool
                known))
