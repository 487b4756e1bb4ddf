-- ===== src/Config/Department.antt =====
-- DepartmentConfig: the API keys of a department, given inline or by an environment variable.
use vllm_source_gateway.Base.{
  ℕ, String, List, [], ◌∷◌, Bool, false, Option, none, some, ◌==◌, if◌then◌else◌,
}
use vllm_source_gateway.Text.{Text, codes, strip}
use vllm_source_gateway.Json.{Value, str, arr, Items, nil, cons}
use vllm_source_gateway.Source.{is_empty}
use vllm_source_gateway.Config.Names.{strip_keys, strip_name, is_blank}
use vllm_source_gateway.Config.Validated.{
  ValidationError, exactly_one_key_source, blank_env_name, no_api_key, env_not_set, env_empty,
  env_not_json, env_not_strings, env_without_key, Validated, valid, invalid, and_validate,
}

pub record DepartmentConfig : Type 0 where
  pub api_keys : Option (List Text)
  pub api_keys_from_env : Option String

-- os.environ.get, and json.loads of a text
pub record Environment : Type 0 where
  pub environ : String → Option String
  pub json_loads : Text → Option Value

-- A value of a list in front of the others, where it is a string.
unfoldable pub string_items : Items → Option (List Text)
string_items nil = some []
string_items (cons (str s) items) = elim (string_items items) [
  | none ↦ none
  | some texts ↦ some (codes s ∷ texts)
]
string_items (cons v items) = none

-- isinstance(v, list) and all(isinstance(item, str) for item in v)
unfoldable pub string_list : Value → Option (List Text)
unfolding string_items
string_list (arr items) = string_items items
string_list v = none

abbrev first_part : ℕ → List Text → List Text
first_part c [] = (c ∷ []) ∷ []
first_part c (part ∷ parts) = (c ∷ part) ∷ parts

-- s.split(",")
unfoldable pub split_commas : Text → List Text
split_commas [] = [] ∷ []
split_commas (c ∷ s) =
    let parts = split_commas s in if c == b',' then [] ∷ parts else first_part c parts

-- s.startswith("[")
abbrev pub is_array : Text → Bool
is_array [] = false
is_array (c ∷ s) = c == b'['

-- What the text of the variable holds.
unfoldable pub parse_values : Environment → (env_var_name : String) → Text → Validated (List Text)
unfolding string_list split_commas
parse_values env env_var_name text =
    if is_array text
    then elim (env.json_loads text) [
      | none ↦ invalid (env_not_json env_var_name)
      | some v ↦ elim (string_list v) [
        | none ↦ invalid (env_not_strings env_var_name)
        | some texts ↦ valid texts
      ]
    ]
    else valid (split_commas text)

-- The stripped values, of which there has to be one.
unfoldable pub nonempty_keys : ValidationError → List Text → Validated (List Text)
unfolding strip_keys
nonempty_keys error values = elim (strip_keys values) [
  | [] ↦ invalid error
  | key ∷ keys ↦ valid (key ∷ keys)
]

unfoldable pub parse_api_keys_env_value :
    Environment → (env_var_name : String) → Validated (List Text)
unfolding parse_values nonempty_keys strip
parse_api_keys_env_value env env_var_name = elim (env.environ env_var_name) [
  | none ↦ invalid (env_not_set env_var_name)
  | some raw_value ↦
      let text = strip (codes raw_value) in
      if is_empty text
      then invalid (env_empty env_var_name)
      else and_validate (parse_values env env_var_name text)
          λ values. nonempty_keys (env_without_key env_var_name) values
]

-- The keys of the variable, where it has a name.
unfoldable pub keys_from_env : Environment → String → Validated (List Text)
unfolding parse_api_keys_env_value strip_name
keys_from_env env name =
    if is_blank (strip_name name)
    then invalid blank_env_name
    else parse_api_keys_env_value env (strip_name name)

-- The keys before the last normalization.
unfoldable pub declared_keys : Environment → DepartmentConfig → Validated (List Text)
unfolding keys_from_env
declared_keys env d = elim d.api_keys [
  | some keys ↦ elim d.api_keys_from_env [
    | some name ↦ invalid exactly_one_key_source
    | none ↦ valid keys
  ]
  | none ↦ elim d.api_keys_from_env [
    | some name ↦ keys_from_env env name
    | none ↦ invalid exactly_one_key_source
  ]
]

-- The API keys after validation.
unfoldable pub validate_api_keys : Environment → DepartmentConfig → Validated (List Text)
unfolding declared_keys nonempty_keys
validate_api_keys env d = and_validate (declared_keys env d) λ keys. nonempty_keys no_api_key keys
