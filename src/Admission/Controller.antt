-- ===== src/Admission/Controller.antt =====
-- The state of `AdmissionController`, and the private methods that the others share.
use vllm_source_gateway.Base.{
  ℕ, String, ◌&&◌, List, [], ◌∷◌, Option, none, some, beq, string_eq, pair_eq, ltb, ◌==◌, ◌+◌, ◌-◌,
  if◌then◌else◌,
}
use vllm_source_gateway.Dict.{Dict, empty, put, get_or}
use vllm_source_gateway.Http.{HttpException}
use vllm_source_gateway.Metrics.{GatewayMetrics, record_admission_rejection}
use vllm_source_gateway.Admission.Config.{
  AdmissionControlConfig, DepartmentModelConcurrencyLimitConfig, TokenBudgetConfig,
}

pub record AdmissionLease : Type 0 where
  pub department : String
  pub model_name : String
  pub endpoint : String

-- A department and a model.
abbrev pub Key : Type 0
Key = String × String

-- When, and how many tokens.
abbrev pub TokenEvent : Type 0
TokenEvent = ℕ × ℕ

pub record Controller : Type 0 where
  pub config : AdmissionControlConfig
  pub metrics : GatewayMetrics
  pub active_by_model : Dict String ℕ
  pub active_by_department_model : Dict Key ℕ
  pub token_events : Dict Key (List TokenEvent)
  pub token_totals : Dict Key ℕ
  pub retry_events : Dict Key (List ℕ)
  pub cooldown_until : Dict Key ℕ

unfoldable pub init : AdmissionControlConfig → GatewayMetrics → Controller
init config metrics = record {
  config = config;
  metrics = metrics;
  active_by_model = empty;
  active_by_department_model = empty;
  token_events = empty;
  token_totals = empty;
  retry_events = empty;
  cooldown_until = empty;
}

-- The reads of the defaultdicts, and `self._cooldown_until.get(key, 0.0)`.
abbrev pub active_of_model : Controller → String → ℕ
active_of_model c model_name = get_or c.active_by_model model_name 0

abbrev pub active_of : Controller → Key → ℕ
active_of c key = get_or c.active_by_department_model key 0

abbrev pub events_of : Controller → Key → List TokenEvent
events_of c key = get_or c.token_events key []

abbrev pub total_of : Controller → Key → ℕ
total_of c key = get_or c.token_totals key 0

abbrev pub retries_of : Controller → Key → List ℕ
retries_of c key = get_or c.retry_events key []

abbrev pub cooldown_of : Controller → Key → ℕ
cooldown_of c key = get_or c.cooldown_until key 0

unfoldable pub first_limit : String → String → List DepartmentModelConcurrencyLimitConfig → Option ℕ
first_limit department model_name [] = none
first_limit department model_name (limit ∷ limits) =
    if beq limit.department department && beq limit.model_name model_name
    then some limit.max_active_requests
    else first_limit department model_name limits

unfoldable pub department_model_limit : AdmissionControlConfig → String → String → Option ℕ
unfolding first_limit
department_model_limit config department model_name =
    first_limit department model_name config.department_model_limits

unfoldable pub first_budget : String → String → List TokenBudgetConfig → Option TokenBudgetConfig
first_budget department model_name [] = none
first_budget department model_name (budget ∷ budgets) =
    if beq budget.department department && beq budget.model_name model_name
    then some budget
    else first_budget department model_name budgets

unfoldable pub token_budget : AdmissionControlConfig → String → String → Option TokenBudgetConfig
unfolding first_budget
token_budget config department model_name = first_budget department model_name config.token_budgets

unfoldable pub record_rejection : Controller → (department model_name reason : String) → Controller
unfolding record_admission_rejection
record_rejection c department model_name reason = record c {
  metrics = record_admission_rejection c.metrics department model_name reason;
}

unfoldable pub too_many_requests : String → ℕ → HttpException
too_many_requests detail retry_after_seconds = record {
  status_code = 429;
  detail = detail;
  retry_after = some retry_after_seconds;
}

-- The events that stay and the tokens of those that went.
unfoldable pub drop_old_token_events : List TokenEvent → (now window : ℕ) → List TokenEvent × ℕ
drop_old_token_events [] now window = ([], 0)
drop_old_token_events ((at, tokens) ∷ events) now window =
    let (kept, removed) = drop_old_token_events events now window in
    if ltb window (now - at) then (kept, tokens + removed) else ((at, tokens) ∷ events, 0)

-- The block that `acquire` and `record_tokens` share: old events go, and their tokens leave the
-- total.
unfoldable pub prune_tokens : Controller → Key → (now window : ℕ) → Controller
unfolding drop_old_token_events
prune_tokens c key now window =
    let (kept, removed) = drop_old_token_events (events_of c key) now window in
    record c {
      token_events = put c.token_events key kept;
      token_totals =
          if removed == 0
          then c.token_totals
          else put c.token_totals key (total_of c key - removed);
    }
