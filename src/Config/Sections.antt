-- ===== src/Config/Sections.antt =====
-- HealthConfig and ModelCatalogEntry: sections that no check between the sections reads.
use vllm_source_gateway.Base.{
  List, [], ◌∷◌, ◌||◌, Bool, true, false, not, ◌&&◌, any, beq, Option, none, some, ◌==◌,
  if◌then◌else◌,
}
use vllm_source_gateway.Text.{Text, codes, text_eq, strip}
use vllm_source_gateway.Source.{is_empty}
use vllm_source_gateway.Config.Names.{strip_keys}
use vllm_source_gateway.Config.Validated.{
  relative_probe_path, hosted_on_address, unsupported_api_path, Validated, valid, invalid,
}

-- s.startswith("/")
abbrev starts_with_slash : Text → Bool
starts_with_slash [] = false
starts_with_slash (c ∷ s) = c == b'/'

-- HealthConfig.validate_probe_path: the path after validation.
unfoldable pub validate_probe_path : Text → Validated Text
unfolding strip
validate_probe_path probe_path =
    if starts_with_slash (strip probe_path)
    then valid (strip probe_path)
    else invalid relative_probe_path

pub record ModelCatalogEntry : Type 0 where
  pub display_name : Option Text
  pub hosted_on : Option Text
  pub use_cases : List Text
  pub api_paths : List Text
  pub context_window : Option Text
  pub recommended_for : List Text
  pub known_limits : List Text
  pub example_prompt : Option Text

unfoldable pub normalize_optional_string : Option Text → Option Text
unfolding strip
normalize_optional_string none = none
normalize_optional_string (some value) = if is_empty (strip value) then none else some (strip value)

-- Whether the text starts with the pattern.
abbrev starts_with : Text → Text → Bool
starts_with [] s = true
starts_with (a ∷ pattern) [] = false
starts_with (a ∷ pattern) (b ∷ s) = a == b && starts_with pattern s

-- pattern in s
unfoldable pub occurs : Text → Text → Bool
occurs pattern [] = starts_with pattern []
occurs pattern (c ∷ s) = starts_with pattern (c ∷ s) || occurs pattern s

-- `_validate_hosted_on` passes the value; `has_address` is the search for an IP address by the `re`
-- module.
unfoldable pub is_abstract : (has_address : Text → Bool) → Option Text → Bool
unfolding occurs
is_abstract has_address none = true
is_abstract has_address (some value) = not (occurs (codes "://") value || has_address value)

-- api_path in {"chat", "responses", "messages"}
abbrev is_supported : Text → Bool
is_supported path =
    beq path (codes "chat") || beq path (codes "responses") || beq path (codes "messages")

-- The entry with its fields stripped.
unfoldable pub strip_entry : ModelCatalogEntry → ModelCatalogEntry
unfolding normalize_optional_string strip_keys
strip_entry entry = record {
  display_name = normalize_optional_string entry.display_name;
  hosted_on = normalize_optional_string entry.hosted_on;
  use_cases = strip_keys entry.use_cases;
  api_paths = strip_keys entry.api_paths;
  context_window = normalize_optional_string entry.context_window;
  recommended_for = strip_keys entry.recommended_for;
  known_limits = strip_keys entry.known_limits;
  example_prompt = normalize_optional_string entry.example_prompt;
}

unfoldable pub normalize_fields :
    (has_address : Text → Bool) → ModelCatalogEntry → Validated ModelCatalogEntry
unfolding strip_entry is_abstract
normalize_fields has_address entry =
    let stripped = strip_entry entry in
    if not (is_abstract has_address stripped.hosted_on)
    then invalid hosted_on_address
    else if any (λ path. not (is_supported path)) stripped.api_paths
    then invalid unsupported_api_path
    else valid stripped
