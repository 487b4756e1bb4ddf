-- ===== src/Health/Targets.antt =====
-- The upstreams that a refresh probes: those of the registry's health, each found by its name.
use vllm_source_gateway.Base.{
  String, ◌≡◌, refl, sym, ap, subst, ◌∙◌, List, [], ◌∷◌, map, true, any, All, All-map, Option, none,
  some, some_inj, option_rule, is_some, beq, beq_refl, string_eq, arith, Bool-cases, inl, inr,
  if_rule,
}
use vllm_source_gateway.Dict.{
  Dict, empty, put, get-put, get-empty, get, items, any-items, items-present,
}
use vllm_source_gateway.Models.{UpstreamTarget, UpstreamHealthSnapshot}
use vllm_source_gateway.Sorting.{insert_by_key, sort_by_key, text_le}
use vllm_source_gateway.Routing.Registry.{
  RoutingRegistry, by_name, new, UpstreamHealthState, Routed, done, fails, get_upstream,
  snapshot_of,
}
use vllm_source_gateway.Routing.WellFormed.{IsWellFormed}
use vllm_source_gateway.Routes.Ready.{any-sort}
use vllm_source_gateway.Health.{targets_of}

-- The registry finds an upstream under its own name.
abbrev pub IsNamed : RoutingRegistry → Type 0
IsNamed r =
    (name : String) (u : UpstreamTarget) → get r.upstreams_by_name name ≡ some u → u.name ≡ name

by_name-named :
    (us : List UpstreamTarget) (d : Dict String UpstreamTarget)
    → ((k : String) (u : UpstreamTarget) → get d k ≡ some u → u.name ≡ k)
    → (k : String) (u : UpstreamTarget) → get (by_name us d) k ≡ some u
    → u.name ≡ k
unfolding by_name
by_name-named [] d named = named
by_name-named (v ∷ us) d named = by_name-named us (put d v.name v) λ k u found.
    elim (Bool-cases (beq v.name k)) [
      | inl same ↦
          let here : v.name ≡ k = (string_eq.test_iff v.name k).0 same in
          let is_u : v ≡ u = some_inj (ground (arith, get-put d v.name k v, same, found)) in
          subst (λ (t : UpstreamTarget). t.name ≡ k) is_u here
      | inr other ↦ named k u (ground (arith, get-put d v.name k v, other, found))
    ]

-- A new registry finds each upstream under its own name.
pub new-IsNamed : (us : List UpstreamTarget) → IsNamed (new us)
unfolding new
new-IsNamed us =
    by_name-named us empty
      λ k u found. absurd (ground (arith, get-empty {V = UpstreamTarget} k, found))

abbrev pub IsOwn : RoutingRegistry → UpstreamTarget → Type 0
IsOwn r u = get r.upstreams_by_name u.name ≡ some u

abbrev IsTarget : RoutingRegistry → String → Type 0
IsTarget r name = is_some (get r.upstreams_by_name name) ≡ true

-- The targets of the names: each is found under its name.
abbrev pub FindsAll : RoutingRegistry → List String → Type 0
FindsAll r names =
    (us : List UpstreamTarget) × (targets_of r names ≡ done us)
    × All (IsOwn r) us
    × ((k : String) → any (λ v. beq v.name k) us ≡ any (λ n. beq n k) names)

targets_of-found :
    (r : RoutingRegistry) (name : String) (names : List String) (u : UpstreamTarget)
    (us : List UpstreamTarget)
    → get r.upstreams_by_name name ≡ some u
    → targets_of r names ≡ done us
    → targets_of r (name ∷ names) ≡ done (u ∷ us)
unfolding targets_of get_upstream
targets_of-found r name names u us at e =
    option_rule (λ (o : Routed UpstreamTarget). step o ≡ done (u ∷ us))
      (get r.upstreams_by_name name) _ _ (λ missing. absurd (ground (arith, missing, at)))
      λ v found.
        ap
          (λ (o : Routed (List UpstreamTarget)). (elim o [
            | fails error ↦ fails error
            | done vs ↦ done (v ∷ vs)
          ]))
          e
        ∙ ap (λ (t : UpstreamTarget). done (t ∷ us)) (some_inj (sym found ∙ at))
  where
    step : Routed UpstreamTarget → Routed (List UpstreamTarget)
    step (fails error) = fails error
    step (done v) = elim (targets_of r names) [
      | fails error ↦ fails error
      | done vs ↦ done (v ∷ vs)
    ]

pub targets_of-FindsAll :
    (r : RoutingRegistry) (names : List String)
    → IsNamed r
    → All (IsTarget r) names
    → FindsAll r names
unfolding targets_of get_upstream
targets_of-FindsAll r [] named known = ([], refl, tt, λ k. refl)
targets_of-FindsAll r (name ∷ names) named known =
    let (us, e, own, same) = targets_of-FindsAll r names named known.1 in
    found (get r.upstreams_by_name name) refl us e own same
  where
    found :
        (o : Option UpstreamTarget)
        → get r.upstreams_by_name name ≡ o
        → (us : List UpstreamTarget) → targets_of r names ≡ done us
        → All (IsOwn r) us
        → ((k : String) → any (λ v. beq v.name k) us ≡ any (λ n. beq n k) names)
        → FindsAll r (name ∷ names)
    found none at us e own same = absurd (ground (arith, at, known.0))
    found (some u) at us e own same =
        let here : u.name ≡ name = named name u at in
        (
          u ∷ us,
          targets_of-found r name names u us at e,
          (subst (λ (n : String). get r.upstreams_by_name n ≡ some u) (sym here) at, own),
          λ k. ground (arith, ap (λ (n : String). beq n k) here, same k),
        )

module _ {V : Type 0} (P : String × V → Type 0) where
  All-insert :
      (e : String × V) (es : List (String × V)) → P e → All P es → All P (insert_by_key e es)
  unfolding insert_by_key
  All-insert e [] h all = (h, tt)
  All-insert e (f ∷ es) h all =
      if_rule (All P) (text_le e.0 f.0) _ _ (λ _. (h, all)) λ _. (all.0, All-insert e es h all.1)

  All-sort : (es : List (String × V)) → All P es → All P (sort_by_key es)
  unfolding sort_by_key
  All-sort [] all = tt
  All-sort (e ∷ es) all = All-insert e (sort_by_key es) all.0 (All-sort es all.1)

abbrev pub snapshot_names : List (String × UpstreamHealthState) → List String
snapshot_names es = map (λ (s : UpstreamHealthSnapshot). s.upstream_name) (map snapshot_of es)

names-All :
    (P : String → Type 0) (es : List (String × UpstreamHealthState))
    → All (λ e. P e.0) es
    → All P (snapshot_names es)
unfolding snapshot_of
names-All P [] all = tt
names-All P (e ∷ es) all = (all.0, names-All P es all.1)

names-any :
    (k : String) (es : List (String × UpstreamHealthState))
    → any (λ n. beq n k) (snapshot_names es) ≡ any (λ e. beq e.0 k) es
unfolding snapshot_of
names-any k [] = refl
names-any k (e ∷ es) = ground (arith, names-any k es)

-- The names that a refresh probes: each is a target, and each upstream of the registry is there.
pub names-IsTarget :
    (r : RoutingRegistry)
    → IsWellFormed r
    → All (IsTarget r) (snapshot_names (sort_by_key (items r.health_by_name)))
names-IsTarget r w = names-All (IsTarget r) (sort_by_key (items r.health_by_name)) (
    All-sort (λ e. IsTarget r e.0) (items r.health_by_name)
      (All-map (items r.health_by_name) (λ e h. w.names e.0 ∙ h) (items-present r.health_by_name)))

pub names-here :
    (r : RoutingRegistry) (k : String) (state : UpstreamHealthState)
    → get r.health_by_name k ≡ some state
    → any (λ n. beq n k) (snapshot_names (sort_by_key (items r.health_by_name))) ≡ true
names-here r k state found =
    names-any k (sort_by_key (items r.health_by_name))
    ∙ any-sort (λ e. beq e.0 k) (items r.health_by_name)
    ∙ any-items (λ e. beq e.0 k) r.health_by_name k state found (beq_refl k)
