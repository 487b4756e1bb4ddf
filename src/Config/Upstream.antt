-- ===== src/Config/Upstream.antt =====
-- UpstreamConfig: its models and its token, and `RoutingRegistry.from_config` of
-- src/vllm_source_gateway/routing.py, which makes the registry from it.
use Prim.Native.Char.{Char, code}
use vllm_source_gateway.Base.{String, List, [], ◌∷◌, map, Option, none, some, ◌==◌, if◌then◌else◌}
use vllm_source_gateway.Models.{UpstreamTarget}
use vllm_source_gateway.Routing.Registry.{RoutingRegistry, new}
use vllm_source_gateway.Config.Names.{strip_name, strip_names, is_blank}
use vllm_source_gateway.Config.Validated.{
  blank_env_name, env_not_set, env_empty, no_model_name, Validated, valid, invalid, and_validate,
}
use vllm_source_gateway.Config.Department.{Environment}

-- `base_url` is the text that `str` makes of the HttpUrl. The token is the private attribute, none
-- before validation.
pub record UpstreamConfig : Type 0 where
  pub name : String
  pub base_url : String
  pub models : List String
  pub authorization_from_env : Option String
  pub authorization_token : Option String

unfoldable pub resolve_authorization_token :
    Environment → (env_var_name : String) → Validated String
unfolding strip_name
resolve_authorization_token env env_var_name = elim (env.environ env_var_name) [
  | none ↦ invalid (env_not_set env_var_name)
  | some raw_value ↦
      if is_blank (strip_name raw_value)
      then invalid (env_empty env_var_name)
      else valid (strip_name raw_value)
]

-- if self.authorization_from_env is not None: ...
unfoldable pub resolve_authorization : Environment → UpstreamConfig → Validated UpstreamConfig
unfolding resolve_authorization_token strip_name
resolve_authorization env u = elim u.authorization_from_env [
  | none ↦ valid u
  | some name ↦
      if is_blank (strip_name name)
      then invalid blank_env_name
      else and_validate (resolve_authorization_token env (strip_name name)) λ token.
        valid (record u {
          authorization_from_env = some (strip_name name);
          authorization_token = some token;
        })
]

unfoldable pub validate_models : Environment → UpstreamConfig → Validated UpstreamConfig
unfolding resolve_authorization strip_names
validate_models env u = elim (strip_names u.models) [
  | [] ↦ invalid no_model_name
  | m ∷ ms ↦ resolve_authorization env (record u { models = m ∷ ms })
]

-- What a character in front of a rest without slashes at its end becomes.
unfoldable pub rstrip_slash_cons : Char → String → String
rstrip_slash_cons c String.[] = if code c == b'/' then "" else String.◌∷◌ c ""
rstrip_slash_cons c (String.◌∷◌ d t) = String.◌∷◌ c (String.◌∷◌ d t)

-- s.rstrip("/")
unfoldable pub rstrip_slash : String → String
unfolding rstrip_slash_cons
rstrip_slash String.[] = ""
rstrip_slash (String.◌∷◌ c s) = rstrip_slash_cons c (rstrip_slash s)

unfoldable pub target_of : UpstreamConfig → UpstreamTarget
unfolding rstrip_slash
target_of u = record {
  name = u.name;
  base_url = rstrip_slash u.base_url;
  models = u.models;
  authorization_token = u.authorization_token;
}

unfoldable pub from_config : List UpstreamConfig → RoutingRegistry
unfolding new target_of
from_config upstreams = new (map target_of upstreams)
