-- ===== src/Examples/Config.antt =====
-- Examples for `Config`.
use vllm_source_gateway.Base.{
  ◌≡◌, refl, ◌↔◌, ◌++◌, String, List, [], ◌∷◌, map, true, none, some, string_eq, All, beq,
  if◌then◌else◌,
}
use vllm_source_gateway.Dict.{Dict, empty, get, put, items}
use vllm_source_gateway.Text.{Text, codes, text_eq, strip}
use vllm_source_gateway.Json.{arr, cons, nil, str}
use vllm_source_gateway.Source.{get_source_resolution_result}
use vllm_source_gateway.Config.Validated.{valid, invalid, api_key_shared}
use vllm_source_gateway.Config.Department.{Environment, DepartmentConfig, validate_api_keys}
use vllm_source_gateway.Config.Upstream.{target_of}
use vllm_source_gateway.Config.App.{AppConfig, all_models, validate_unique_constraints}
use vllm_source_gateway.Config.Keys.{declares}
use vllm_source_gateway.Config.Mapped.{validate_unique_constraints-declares}
use vllm_source_gateway.Config.Presented.{validate_api_keys-get_source_resolution_result}
use vllm_source_gateway.Config.Applied.{
  LimitApplies, BudgetApplies, validate_unique_constraints-Applies,
}
use vllm_source_gateway.Examples.Proxy.{admission_config}

-- The keys of "a" come from the environment, as a JSON array.
abbrev env : Environment
env = record {
  environ = λ name. if beq name "KEYS" then some " [..] " else none;
  json_loads = λ s. some (arr (cons (str " k1 ") (cons (str "") (cons (str "k2") nil))));
}

abbrev declared : DepartmentConfig
declared = record { api_keys = none; api_keys_from_env = some "KEYS " }

abbrev keys : List Text
keys = codes "k1" ∷ codes "k2" ∷ []

abbrev pub config : AppConfig
config = record {
  admission_control = record admission_config {
    department_model_limits =
        record { department = "a"; model_name = "m"; max_active_requests = 2 } ∷ [];
    token_budgets =
        record { department = "b"; model_name = "m"; max_tokens = 5; window_seconds = 60 } ∷ [];
  };
  upstreams =
      record {
        name = "u";
        base_url = "http://u/";
        models = "m" ∷ [];
        authorization_from_env = none;
        authorization_token = none;
      }
      ∷ [];
  departments = put (put empty " a" keys) "b" (codes "k3" ∷ []);
}

abbrev mapping : Dict Text String
mapping = put (put (put empty (codes "k1") "a") (codes "k2") "a") (codes "k3") "b"

target_run :
    (target_of (record {
      name = "u";
      base_url = "http://u//";
      models = "m" ∷ [];
      authorization_from_env = none;
      authorization_token = none;
    })).base_url
    ≡ "http://u"
unfolding target_of
target_run = refl

validate_api_keys_run : validate_api_keys env declared ≡ valid keys
unfolding validate_api_keys
validate_api_keys_run = refl

validate_run : validate_unique_constraints config ≡ valid mapping
unfolding validate_unique_constraints
validate_run = refl

shared_run :
    validate_unique_constraints
      (record config { departments = put (put empty " a" keys) "b" (codes "k2" ∷ []) })
    ≡ invalid (api_key_shared (codes "k2"))
unfolding validate_unique_constraints
shared_run = refl

validate_unique_constraints-declares_example :
    (get mapping (codes "k2") ≡ some "a")
    ↔ (declares (items config.departments) (codes "k2") "a" ≡ true)
unfolding validate_unique_constraints
validate_unique_constraints-declares_example =
    validate_unique_constraints-declares config mapping (codes "k2") "a" refl

validate_api_keys-get_source_resolution_result_example :
    (get_source_resolution_result mapping none (some (codes " k1 "))
      ≡ record { department = "a"; api_key = some (codes "k1"); resolution_source = "api_key" })
    × (get_source_resolution_result mapping (some (codes "Bearer " ++ codes " k1 ")) none
        ≡ record { department = "a"; api_key = some (codes "k1"); resolution_source = "api_key" })
unfolding validate_unique_constraints validate_api_keys strip
validate_api_keys-get_source_resolution_result_example =
    validate_api_keys-get_source_resolution_result env declared keys config mapping (codes "k1")
      (codes " k1 ") "a" none refl refl refl refl refl

validate_unique_constraints-Applies_example :
    All
      (LimitApplies config.admission_control
        (map (λ e. e.1) (items mapping))
        (all_models config.upstreams))
      config.admission_control.department_model_limits
    × All
        (BudgetApplies config.admission_control
          (map (λ e. e.1) (items mapping))
          (all_models config.upstreams))
        config.admission_control.token_budgets
unfolding validate_unique_constraints
validate_unique_constraints-Applies_example =
    validate_unique_constraints-Applies config mapping refl refl
