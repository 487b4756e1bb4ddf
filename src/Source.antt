-- ===== src/Source.antt =====
-- src/vllm_source_gateway/dependencies.py: the API key of a request, and the department it stands
-- for.
pub mod Presents
pub mod Resolution
use vllm_source_gateway.Base.{
  ℕ, String, List, [], ◌∷◌, Bool, true, false, Option, none, some, ◌==◌, beq, if◌then◌else◌,
}
use vllm_source_gateway.Dict.{Dict, get}
use vllm_source_gateway.Text.{Text, codes, text_eq, lower, strip}

abbrev pub is_empty : Text → Bool
is_empty [] = true
is_empty (c ∷ s) = false

-- normalized or None
abbrev or_none : Text → Option Text
or_none s = if is_empty s then none else some s

abbrev prefixed : ℕ → Text × Text → Text × Text
prefixed c (scheme, value) = (c ∷ scheme, value)

-- s.partition(" "), without the separator
unfoldable pub partition : Text → Text × Text
partition [] = ([], [])
partition (c ∷ s) = let rest = partition s in if c == b' ' then ([], s) else prefixed c rest

unfoldable pub bearer_value : Text → Option Text
unfolding partition strip
bearer_value authorization =
    let (scheme, value) = partition authorization in
    if beq (lower scheme) (codes "bearer") then or_none (strip value) else none

-- The text of a header that is there and not empty.
abbrev pub present : Option Text → Option Text
present none = none
present (some s) = or_none s

unfoldable pub extract_api_key : (authorization x_api_key : Option Text) → Option Text
unfolding bearer_value strip
extract_api_key authorization x_api_key = elim (present x_api_key) [
  | some key ↦ or_none (strip key)
  | none ↦ elim (present authorization) [ some value ↦ bearer_value value | none ↦ none ]
]

pub record SourceResolutionResult : Type 0 where
  pub department : String
  pub api_key : Option Text
  pub resolution_source : String

abbrev pub unknown_department : String
unknown_department = "unknown"

unfoldable pub resolve_department_for_api_key :
    Dict Text String → Option Text → SourceResolutionResult
resolve_department_for_api_key api_key_to_department api_key = elim (present api_key) [
  | none ↦ record { department = unknown_department; api_key = none; resolution_source = "unknown" }
  | some key ↦ elim (get api_key_to_department key) [
    | some department ↦ record {
      department = department;
      api_key = some key;
      resolution_source = "api_key";
    }
    | none ↦ record {
      department = unknown_department;
      api_key = some key;
      resolution_source = "unknown";
    }
  ]
]

unfoldable pub get_source_resolution_result :
    Dict Text String → (authorization x_api_key : Option Text) → SourceResolutionResult
unfolding extract_api_key resolve_department_for_api_key
get_source_resolution_result api_key_to_department authorization x_api_key =
    resolve_department_for_api_key api_key_to_department (extract_api_key authorization x_api_key)
