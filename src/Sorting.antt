-- ===== src/Sorting.antt =====
-- Python's `sorted` on the items of a dict: by key, which is a text compared by code points.
use Prim.Native.String.{compare}
use Prim.Native.Nat.{Ordering}
use vllm_source_gateway.Base.{String, Bool, true, false, List, [], ◌∷◌, if◌then◌else◌}

-- s <= t
unfoldable pub text_le : String → String → Bool
text_le s t = elim (compare s t) [ Ordering.gt ↦ false | _ ↦ true ]

module _ {ℓ} {V : Type ℓ} where
  unfoldable pub insert_by_key : String × V → List (String × V) → List (String × V)
  unfolding text_le
  insert_by_key e [] = e ∷ []
  insert_by_key e (f ∷ es) = if text_le e.0 f.0 then e ∷ f ∷ es else f ∷ insert_by_key e es

  unfoldable pub sort_by_key : List (String × V) → List (String × V)
  unfolding insert_by_key
  sort_by_key [] = []
  sort_by_key (e ∷ es) = insert_by_key e (sort_by_key es)
