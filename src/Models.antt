-- ===== src/Models.antt =====
-- src/vllm_source_gateway/models.py: the values that the registry hands out.
use vllm_source_gateway.Base.{
  ℕ, String, List, Option, Bool, any, beq, string_eq, ltb, if◌then◌else◌,
}

pub record UpstreamTarget : Type 0 where
  pub name : String
  pub base_url : String
  pub models : List String
  pub authorization_token : Option String

-- model_name in self.models
unfoldable pub serves_model : UpstreamTarget → String → Bool
serves_model u model_name = any (λ m. beq m model_name) u.models

pub record SelectedUpstream : Type 0 where
  pub model_name : String
  pub upstream : UpstreamTarget

pub data ModelStatus : Type 0 where
  online unavailable : ModelStatus

pub record ModelAvailability : Type 0 where
  pub model_name : String
  pub total_upstream_count : ℕ
  pub healthy_upstream_count : ℕ

-- The property `status`.
unfoldable pub status : ModelAvailability → ModelStatus
status a = if ltb 0 a.healthy_upstream_count then online else unavailable

pub record UpstreamHealthSnapshot : Type 0 where
  pub upstream_name : String
  pub healthy : Bool
  pub last_probe_at : Option String
  pub last_success_at : Option String
  pub last_status_code : Option ℕ
  pub last_error : Option String
