-- ===== src/Config/Limits.antt =====
-- The normalization of the admission section: stripped names that are not empty.
use vllm_source_gateway.Base.{String, List, [], ◌∷◌, ◌||◌, if◌then◌else◌, string_eq}
use vllm_source_gateway.Dict.{Dict, empty, put, items}
use vllm_source_gateway.Admission.Config.{
  DepartmentModelConcurrencyLimitConfig, TokenBudgetConfig, AdmissionControlConfig,
}
use vllm_source_gateway.Config.Names.{strip_name, is_blank}
use vllm_source_gateway.Config.Validated.{
  blank_limit_pair, blank_limit_name, Validated, valid, invalid, and_validate,
}

-- DepartmentModelConcurrencyLimitConfig.normalize_keys
unfoldable pub normalize_limit :
    DepartmentModelConcurrencyLimitConfig → Validated DepartmentModelConcurrencyLimitConfig
unfolding strip_name
normalize_limit limit =
    let department = strip_name limit.department in
    let model_name = strip_name limit.model_name in
    if is_blank department || is_blank model_name
    then invalid blank_limit_pair
    else valid (record limit { department = department; model_name = model_name })

-- TokenBudgetConfig.normalize_keys
unfoldable pub normalize_budget : TokenBudgetConfig → Validated TokenBudgetConfig
unfolding strip_name
normalize_budget budget =
    let department = strip_name budget.department in
    let model_name = strip_name budget.model_name in
    if is_blank department || is_blank model_name
    then invalid blank_limit_pair
    else valid (record budget { department = department; model_name = model_name })

-- The loop over the limits of a dict; of two names that differ in spaces only the last one stays.
unfoldable pub normalize_names :
    {V : Type 0} → List (String × V) → Dict String V → Validated (Dict String V)
unfolding strip_name
normalize_names [] normalized = valid normalized
normalize_names ((name, limit) ∷ limits) normalized =
    let later = normalize_names limits (put normalized (strip_name name) limit) in
    if is_blank (strip_name name) then invalid blank_limit_name else later

-- AdmissionControlConfig.normalize_model_keys
unfoldable pub normalize_model_keys : AdmissionControlConfig → Validated AdmissionControlConfig
unfolding normalize_names items empty
normalize_model_keys config =
    and_validate (normalize_names (items config.global_model_limits) empty) λ global_limits.
      and_validate (normalize_names (items config.request_shape_limits) empty) λ shape_limits.
        valid (record config {
          global_model_limits = global_limits;
          request_shape_limits = shape_limits;
        })
