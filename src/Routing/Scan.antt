-- ===== src/Routing/Scan.antt =====
-- The loop of `select_upstream`: it finds the first candidate, in cyclic order, that is neither
-- excluded nor unhealthy, if there is one.
use native.Mathlib.Nat.{mod-lt}
use native.Mathlib.Decide.{dec_lt}
use vllm_source_gateway.Base.{
  ℕ, zero, suc, String, ◌≡◌, refl, sym, ◌∙◌, ◌≤◌, ◌<◌, ◌+◌, ◌%◌, List, [], ◌∷◌, Bool, true, false,
  not, ◌&&◌, Option, none, some, All, length, get_elem?, string_eq, arith, if◌then◌else◌, if_rule,
  option_rule, subst, some_inj,
}
use vllm_source_gateway.Dict.{get}
use vllm_source_gateway.Models.{UpstreamTarget}
use vllm_source_gateway.Routing.Registry.{RoutingRegistry, Routed, done, fails, crash, is_healthy}
use vllm_source_gateway.Routing.Select.{is_excluded, scan}
use vllm_source_gateway.Routing.WellFormed.{IsKnown}

-- Neither excluded nor unhealthy.
abbrev pub is_eligible : RoutingRegistry → List String → UpstreamTarget → Bool
is_eligible r excluded u = not (is_excluded excluded u) && is_healthy r u

-- Below the length there is an item, and an item of a list has what all have.
pub get_elem?-some :
    {A : Type 0} (xs : List A) (i : ℕ) → i < length xs → (x : A) × (get_elem? xs i ≡ some x)
get_elem?-some [] i h = absurd (omega arith)
get_elem?-some (x ∷ xs) zero h = (x, refl)
get_elem?-some (x ∷ xs) (suc i) h = get_elem?-some xs i (omega arith)

pub All-get_elem? :
    {A : Type 0} (P : A → Type 0) (xs : List A) (i : ℕ) (x : A)
    → All P xs
    → get_elem? xs i ≡ some x
    → P x
All-get_elem? P [] i x h e = absurd (ground (arith, e))
All-get_elem? P (y ∷ xs) zero x h e = subst P (some_inj e) h.0
All-get_elem? P (y ∷ xs) (suc i) x h e = All-get_elem? P xs i x h.1 e

module _ (r : RoutingRegistry) (pool : List UpstreamTarget) (start : ℕ)
    (excluded : List String) where
  -- The position of the candidate of a round.
  abbrev pub position : ℕ → ℕ
  position j = (start + j) % length pool

  -- The candidate of the round is passed over.
  abbrev pub Skips : ℕ → Type 0
  Skips j =
      (u : UpstreamTarget) → get_elem? pool (position j) ≡ some u → is_eligible r excluded u ≡ false

  -- What the rounds from `offset` on, `left` of them, return.
  pub data Scans (offset left : ℕ) (result : Routed (Option (ℕ × UpstreamTarget))) : Type 0 where
    exhausted :
        ((j : ℕ) → offset ≤ j → j < offset + left → Skips j)
        → result ≡ done none
        → Scans offset left result
    chosen :
        (k : ℕ) (u : UpstreamTarget)
        → offset ≤ k
        → k < offset + left
        → get_elem? pool (position k) ≡ some u
        → is_eligible r excluded u ≡ true
        → ((j : ℕ) → offset ≤ j → j < k → Skips j)
        → result ≡ done (some (position k, u))
        → Scans offset left result

  Skips-from :
      (offset top : ℕ)
      → Skips offset
      → ((j : ℕ) → suc offset ≤ j → j < top → Skips j)
      → (j : ℕ) → offset ≤ j
      → j < top
      → Skips j
  Skips-from offset top skips h j lo hi = elim (dec_lt offset j) [
    | yes later ↦ h j later hi
    | no first ↦ subst Skips (omega arith) skips
  ]

  skip-first :
      (offset left : ℕ) (result : Routed (Option (ℕ × UpstreamTarget)))
      → Skips offset
      → Scans (suc offset) left result
      → Scans offset (suc left) result
  skip-first offset left result skips (exhausted h e) =
      exhausted (Skips-from offset (offset + suc left) skips (λ j lo hi. h j lo (omega arith))) e
  skip-first offset left result skips (chosen k u lo hi at ok h e) =
      chosen k u (omega arith) (omega arith) at ok (Skips-from offset k skips h) e

  -- A candidate that is known is passed over or chosen.
  scan_candidate :
      (offset left : ℕ) (rest : Routed (Option (ℕ × UpstreamTarget))) (u : UpstreamTarget)
      → get_elem? pool (position offset) ≡ some u
      → IsKnown r.health_by_name u
      → Scans (suc offset) left rest
      → Scans offset (suc left) (
          if is_excluded excluded u then rest else elim (get r.health_by_name u.name) [
            | none ↦ fails crash
            | some state ↦ if not state.healthy then rest else done (some (position offset, u))
          ])
  scan_candidate offset left rest u at known ih =
      let P : Routed (Option (ℕ × UpstreamTarget)) → Type 0 = Scans offset (suc left) in
      let skipped : is_eligible r excluded u ≡ false → P rest = λ h.
        skip-first offset left rest
          (λ v at_v.
            subst (λ (w : UpstreamTarget). is_eligible r excluded w ≡ false)
              (some_inj (sym at ∙ at_v)) h)
          ih in
      if_rule P (is_excluded excluded u) rest _ (λ h. skipped (ground (arith, h)))
        λ in_pool.
          option_rule P (get r.health_by_name u.name) _ _
            (λ missing. absurd (ground (arith, missing, known)))
            λ state found.
              if_rule P (not state.healthy) rest _ (λ h. skipped (ground (arith, h, found)))
                λ h.
                  chosen offset u (omega arith) (omega arith) at (ground (arith, h, found, in_pool))
                    (λ j lo hi. absurd (omega arith)) refl

  -- Rounds over a pool that is not empty, whose upstreams all have a health entry.
  pub scan-Scans :
      (left offset : ℕ)
      → 0 < length pool
      → All (IsKnown r.health_by_name) pool
      → Scans offset left (scan r pool start excluded left offset)
  unfolding scan
  scan-Scans zero offset h known = exhausted (λ j lo hi. absurd (omega arith)) refl
  scan-Scans (suc left) offset h known =
      let (u, at) = get_elem?-some pool (position offset) (mod-lt (start + offset) h) in
      option_rule (Scans offset (suc left)) (get_elem? pool (position offset)) _ _
        (λ missing. absurd (ground (arith, missing, at)))
        λ v found.
          scan_candidate offset left (scan r pool start excluded left (suc offset)) v found
            (All-get_elem? (IsKnown r.health_by_name) pool (position offset) v known found)
            (scan-Scans left (suc offset) h known)
