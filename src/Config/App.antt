-- ===== src/Config/App.antt =====
-- AppConfig: the checks between the sections, on sections that are valid each.
use vllm_source_gateway.Base.{
  String, List, [], ◌∷◌, ◌++◌, map, Bool, true, false, any, beq, string_eq, pair_eq, if◌then◌else◌,
}
use vllm_source_gateway.Dict.{Dict, empty, put, items}
use vllm_source_gateway.Sorting.{sort_by_key}
use vllm_source_gateway.Text.{Text, text_eq}
use vllm_source_gateway.Admission.Config.{AdmissionControlConfig}
use vllm_source_gateway.Config.Names.{strip_name, is_blank}
use vllm_source_gateway.Config.Validated.{
  upstream_names_not_unique, blank_department_name, api_key_shared, unknown_limit_model,
  unknown_limit_department, duplicate_pair, Validated, valid, invalid, and_validate,
}
use vllm_source_gateway.Config.Upstream.{UpstreamConfig}

-- The sections that the checks read. `departments` has the validated API keys of each department.
pub record AppConfig : Type 0 where
  pub admission_control : AdmissionControlConfig
  pub upstreams : List UpstreamConfig
  pub departments : Dict String (List Text)

-- name in names
abbrev pub is_in : String → List String → Bool
is_in name names = any (λ other. beq other name) names

-- len(names) == len(set(names))
unfoldable pub all_unique : List String → Bool
all_unique [] = true
all_unique (name ∷ names) = if is_in name names then false else all_unique names

-- The loop over the API keys of a department, with `seen_api_keys` and `api_key_to_department`.
abbrev pub Registered : Type 0
Registered = List Text × Dict Text String

unfoldable pub register_keys : (department : String) → List Text → Registered → Validated Registered
unfolding put
register_keys department [] registered = valid registered
register_keys department (api_key ∷ api_keys) (seen_api_keys, api_key_to_department) =
    let later =
      register_keys department api_keys
        (api_key ∷ seen_api_keys, put api_key_to_department api_key department) in
    if any (λ seen. beq seen api_key) seen_api_keys then invalid (api_key_shared api_key) else later

-- The loop over the departments.
unfoldable pub register_departments : List (String × List Text) → Registered → Validated Registered
unfolding register_keys strip_name
register_departments [] registered = valid registered
register_departments ((department, api_keys) ∷ departments) registered =
    if is_blank (strip_name department)
    then invalid blank_department_name
    else elim (register_keys (strip_name department) api_keys registered) [
      | valid more ↦ register_departments departments more
      | invalid error ↦ invalid error
    ]

-- for model_name in ...: self._validate_known_admission_model(...)
unfoldable pub check_models :
    (field_name : String) → (allowed_model_names names : List String) → Validated (Unit {0})
check_models field_name allowed_model_names [] = valid tt
check_models field_name allowed_model_names (name ∷ names) =
    let later = check_models field_name allowed_model_names names in
    if is_in name allowed_model_names then later else invalid (unknown_limit_model field_name name)

-- _validate_unique_admission_pairs
unfoldable pub check_pairs :
    (field_name : String) → (seen pairs : List (String × String)) → Validated (Unit {0})
check_pairs field_name seen [] = valid tt
check_pairs field_name seen ((department, model_name) ∷ pairs) =
    let later = check_pairs field_name ((department, model_name) ∷ seen) pairs in
    if any (λ pair. beq pair (department, model_name)) seen
    then invalid (duplicate_pair field_name department model_name)
    else later

-- The loop that looks up the department, then the model of each pair.
unfoldable pub check_known :
    (field_name : String)
    → (allowed_departments allowed_model_names : List String) → List (String × String)
    → Validated (Unit {0})
check_known field_name allowed_departments allowed_model_names [] = valid tt
check_known field_name allowed_departments allowed_model_names ((department, model_name) ∷ pairs) =
    let later = check_known field_name allowed_departments allowed_model_names pairs in
    if is_in department allowed_departments
    then (if is_in model_name allowed_model_names
        then later
        else invalid (unknown_limit_model field_name model_name))
    else invalid (unknown_limit_department field_name department)

-- {model_name for upstream in upstreams for model_name in upstream.models}
abbrev pub all_models : List UpstreamConfig → List String
all_models [] = []
all_models (u ∷ us) = u.models ++ all_models us

abbrev pub limit_pairs : AdmissionControlConfig → List (String × String)
limit_pairs config =
    map (λ limit. (limit.department, limit.model_name)) config.department_model_limits

abbrev pub budget_pairs : AdmissionControlConfig → List (String × String)
budget_pairs config = map (λ budget. (budget.department, budget.model_name)) config.token_budgets

-- if self.admission_control.enabled: ...
unfoldable pub check_references :
    AdmissionControlConfig
    → (allowed_departments allowed_model_names : List String) → Validated (Unit {0})
unfolding check_models check_pairs check_known items
check_references config departments models =
    and_validate
      (check_models "global_model_limits" models
        (map (λ e. e.0) (items config.global_model_limits)))
      λ _.
        and_validate
          (check_models "request_shape_limits" models
            (map (λ e. e.0) (items config.request_shape_limits)))
          λ _. and_validate (check_pairs "department_model_limits" [] (limit_pairs config)) λ _.
            and_validate (check_pairs "token_budgets" [] (budget_pairs config)) λ _.
              and_validate
                (check_known "department_model_limits" departments models (limit_pairs config))
                λ _. check_known "token_budgets" departments models (budget_pairs config)

-- The references of the admission section, where it is enabled, and then the dict of the API keys.
unfoldable pub check_admission : AppConfig → Dict Text String → Validated (Dict Text String)
unfolding check_references items
check_admission config api_key_to_department =
    if config.admission_control.enabled
    then and_validate
        (check_references config.admission_control (map (λ e. e.1) (items api_key_to_department))
          (all_models config.upstreams))
        (λ _. valid api_key_to_department)
    else valid api_key_to_department

-- The value is `_api_key_to_department`.
unfoldable pub validate_unique_constraints : AppConfig → Validated (Dict Text String)
unfolding all_unique register_departments check_admission items empty
validate_unique_constraints config =
    if all_unique (map (λ u. u.name) config.upstreams)
    then and_validate (register_departments (items config.departments) ([], empty))
        (λ registered. check_admission config registered.1)
    else invalid upstream_names_not_unique

-- The set of names, as the keys of a dict.
unfoldable pub name_set : List String → Dict String (Unit {0}) → Dict String (Unit {0})
unfolding put
name_set [] names = names
name_set (name ∷ rest) names = name_set rest (put names name tt)

-- The property `model_names`.
unfoldable pub model_names : AppConfig → List String
unfolding name_set sort_by_key items empty
model_names config =
    map (λ e. e.0) (sort_by_key (items (name_set (all_models config.upstreams) empty)))
