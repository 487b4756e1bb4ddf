-- ===== src/Admission/Config.antt =====
-- The admission part of src/vllm_source_gateway/config.py, after validation. Every time and
-- duration of the model counts ticks, a microsecond each, where the source has float seconds.
use vllm_source_gateway.Base.{ℕ, String, Bool, List, Option}
use vllm_source_gateway.Dict.{Dict}

abbrev pub ticks_per_second : ℕ
ticks_per_second = 1_000_000

pub record ModelConcurrencyLimitConfig : Type 0 where
  pub max_active_requests : ℕ

pub record DepartmentModelConcurrencyLimitConfig : Type 0 where
  pub department : String
  pub model_name : String
  pub max_active_requests : ℕ

pub record TokenBudgetConfig : Type 0 where
  pub department : String
  pub model_name : String
  pub max_tokens : ℕ
  pub window_seconds : ℕ

pub record RequestShapeLimitConfig : Type 0 where
  pub max_request_body_bytes : Option ℕ
  pub max_output_tokens : Option ℕ
  pub reject_n_greater_than_one : Bool

pub record RetryGuardConfig : Type 0 where
  pub enabled : Bool
  pub window_seconds : ℕ
  pub max_events : ℕ
  pub cooldown_seconds : ℕ

pub record AdmissionControlConfig : Type 0 where
  pub enabled : Bool
  pub default_retry_after_seconds : ℕ
  pub global_model_limits : Dict String ModelConcurrencyLimitConfig
  pub department_model_limits : List DepartmentModelConcurrencyLimitConfig
  pub token_budgets : List TokenBudgetConfig
  pub request_shape_limits : Dict String RequestShapeLimitConfig
  pub retry_guard : RetryGuardConfig
