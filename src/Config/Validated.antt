-- ===== src/Config/Validated.antt =====
-- The result of a validator, and its ValueErrors.
use vllm_source_gateway.Base.{String}
use vllm_source_gateway.Text.{Text}

pub data ValidationError : Type 0 where
  exactly_one_key_source blank_env_name no_api_key : ValidationError
  env_not_set env_empty env_not_json env_not_strings env_without_key : String → ValidationError
  no_model_name blank_limit_pair blank_limit_name : ValidationError
  upstream_names_not_unique blank_department_name : ValidationError
  api_key_shared : Text → ValidationError
  relative_probe_path hosted_on_address unsupported_api_path : ValidationError
  unknown_limit_model unknown_limit_department : (field_name name : String) → ValidationError
  duplicate_pair : (field_name department model_name : String) → ValidationError

pub data Validated {ℓ} (A : Type ℓ) : Type ℓ where
  valid : A → Validated A
  invalid : ValidationError → Validated A

abbrev pub and_validate : {A B : Type 0} → Validated A → (A → Validated B) → Validated B
and_validate (valid a) k = k a
and_validate (invalid error) k = invalid error
