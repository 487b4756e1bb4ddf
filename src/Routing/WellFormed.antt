-- ===== src/Routing/WellFormed.antt =====
-- What holds of every registry that the constructor made, whatever was selected and probed since:
-- the lookups of `select_upstream` find their keys, and no pool is empty.
use mathlib.Core.List.{append_assoc}
use vllm_source_gateway.Base.{
  String, ◌≡◌, refl, sym, ◌∙◌, ◌<◌, List, [], ◌∷◌, ◌++◌, Bool, true, ◌||◌, Option, none, some, any,
  All, All-append, length, length-append, is_some, beq, string_eq, arith, Bool-cases, inl, inr,
  beq_refl, subst, or_default,
}
use vllm_source_gateway.Dict.{Dict, empty, get, put, get_or, get-put, get-empty}
use vllm_source_gateway.Models.{UpstreamTarget}
use vllm_source_gateway.Routing.Registry.{
  RoutingRegistry, UpstreamHealthState, by_name, initial_health, index_upstream, build_model_index,
  new, unprobed,
}

abbrev pub IsKnown : Dict String UpstreamHealthState → UpstreamTarget → Type 0
IsKnown health u = is_some (get health u.name) ≡ true

abbrev pub IsPool : Dict String UpstreamHealthState → List UpstreamTarget → Type 0
IsPool health pool = All (IsKnown health) pool × (0 < length pool)

pub record IsWellFormed (r : RoutingRegistry) : Type 0 where
  pub pools :
      (m : String) (pool : List UpstreamTarget)
      → get r.model_to_upstreams m ≡ some pool
      → IsPool r.health_by_name pool
  pub names :
      (name : String) → is_some (get r.upstreams_by_name name) ≡ is_some (get r.health_by_name name)

abbrev has_name : String → UpstreamTarget → Bool
has_name name u = beq u.name name

contains-by_name :
    (name : String) (us : List UpstreamTarget) (d : Dict String UpstreamTarget)
    → is_some (get (by_name us d) name) ≡ (any (has_name name) us || is_some (get d name))
unfolding by_name
contains-by_name name [] d = refl
contains-by_name name (u ∷ us) d =
    ground (arith, contains-by_name name us (put d u.name u), get-put d u.name name u)

contains-initial_health :
    (name : String) (us : List UpstreamTarget) (d : Dict String UpstreamHealthState)
    → is_some (get (initial_health us d) name) ≡ (any (has_name name) us || is_some (get d name))
unfolding initial_health
contains-initial_health name [] d = refl
contains-initial_health name (u ∷ us) d =
    ground (
      arith,
      contains-initial_health name us (put d u.name unprobed),
      get-put d u.name name unprobed,
    )

module _ (health : Dict String UpstreamHealthState) where
  -- Every pool of an index that is being built is a pool.
  record Indexed (index : Dict String (List UpstreamTarget)) : Type 0 where
    at_model :
        (m : String) (pool : List UpstreamTarget) → get index m ≡ some pool → IsPool health pool

  IsKnown-or_nil :
      (o : Option (List UpstreamTarget))
      → ((p : List UpstreamTarget) → o ≡ some p → All (IsKnown health) p)
      → All (IsKnown health) (or_default o [])
  IsKnown-or_nil none h = tt
  IsKnown-or_nil (some p) h = h p refl

  add-Indexed :
      (u : UpstreamTarget) (m : String) (index : Dict String (List UpstreamTarget))
      → IsKnown health u
      → Indexed index
      → Indexed (put index m (get_or index m [] ++ u ∷ []))
  add-Indexed u m index known v =
      let old : All (IsKnown health) (get_or index m []) =
        IsKnown-or_nil (get index m) (λ p found. (v.at_model m p found).0) in
      let more : IsPool health (get_or index m [] ++ u ∷ []) = (
        All-append (IsKnown health) (get_or index m []) (u ∷ []) old (known, tt),
        omega (arith, length-append (get_or index m []) (u ∷ [])),
      ) in
      record {
        at_model = λ n pool found. elim (Bool-cases (beq m n)) [
          | inl same ↦
              subst (IsPool health)
                (ground (arith, get-put index m n (get_or index m [] ++ u ∷ []), same, found)) more
          | inr other ↦
              v.at_model n pool
                (ground (arith, get-put index m n (get_or index m [] ++ u ∷ []), other, found))
        ];
      }

  index_upstream-Indexed :
      (u : UpstreamTarget) (ms : List String) (index : Dict String (List UpstreamTarget))
      → IsKnown health u
      → Indexed index
      → Indexed (index_upstream u ms index)
  unfolding index_upstream
  index_upstream-Indexed u [] index known v = v
  index_upstream-Indexed u (m ∷ ms) index known v =
      index_upstream-Indexed u ms _ known (add-Indexed u m index known v)

  build_model_index-Indexed :
      (us : List UpstreamTarget) (index : Dict String (List UpstreamTarget))
      → All (IsKnown health) us
      → Indexed index
      → Indexed (build_model_index us index)
  unfolding build_model_index
  build_model_index-Indexed [] index known v = v
  build_model_index-Indexed (u ∷ us) index known v =
      build_model_index-Indexed us _ known.1 (index_upstream-Indexed u u.models index known.0 v)

any_self :
    (us vs : List UpstreamTarget) (u : UpstreamTarget) → any (has_name u.name) (vs ++ u ∷ us) ≡ true
any_self us [] u = ground (arith, beq_refl u.name)
any_self us (v ∷ vs) u = ground (arith, any_self us vs u)

-- Each upstream of the list has its entry.
All-IsKnown : (vs us : List UpstreamTarget) → All (IsKnown (initial_health (vs ++ us) empty)) us
All-IsKnown vs [] = tt
All-IsKnown vs (u ∷ us) = (
  contains-initial_health u.name (vs ++ u ∷ us) empty ∙ rw (any_self us vs u),
  subst (λ (ws : List UpstreamTarget). All (IsKnown (initial_health ws empty)) us)
      (append_assoc vs (u ∷ []) us) (All-IsKnown (vs ++ u ∷ []) us),
)

-- A new registry is well formed.
pub new-IsWellFormed : (us : List UpstreamTarget) → IsWellFormed (new us)
unfolding new empty get
new-IsWellFormed us = record {
  pools =
      (build_model_index-Indexed (initial_health us empty) us empty (All-IsKnown [] us) (record {
        at_model =
            λ m pool found. absurd (ground (arith, get-empty {V = List UpstreamTarget} m, found));
      })).at_model;
  names = λ name. contains-by_name name us empty ∙ sym (contains-initial_health name us empty);
}
