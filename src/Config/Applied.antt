-- ===== src/Config/Applied.antt =====
-- The limits of a valid configuration are applied, and to known departments and models.
use vllm_source_gateway.Base.{
  String, ◌≡◌, refl, ap, ◌∙◌, List, [], ◌∷◌, map, Bool, true, false, All, Option, none, some,
  pair_eq, string_eq, arith, if◌then◌else◌, ℕ,
}
use vllm_source_gateway.Dict.{Dict, items}
use vllm_source_gateway.Text.{Text, text_eq}
use vllm_source_gateway.Admission.Config.{
  DepartmentModelConcurrencyLimitConfig, TokenBudgetConfig, AdmissionControlConfig,
}
use vllm_source_gateway.Admission.Controller.{
  department_model_limit, token_budget, first_limit, first_budget,
}
use vllm_source_gateway.Config.Validated.{Validated, valid, invalid, and_validate}
use vllm_source_gateway.Config.App.{
  AppConfig, is_in, all_models, limit_pairs, budget_pairs, check_models, check_pairs, check_known,
  check_references, check_admission, validate_unique_constraints,
}
use vllm_source_gateway.Config.Mapped.{registered_of}
use vllm_source_gateway.Config.Unique.{is_valid, first_with, check_pairs-first_with}

both_valid :
    (o k : Validated (Unit {0}))
    → is_valid (and_validate o λ _. k) ≡ true
    → (is_valid o ≡ true) × (is_valid k ≡ true)
both_valid (valid u) k h = (refl, h)
both_valid (invalid error) k h = absurd (ground (arith, h))

-- A pair of a known department and a known model.
abbrev pub IsKnown : (departments models : List String) → String × String → Type 0
IsKnown departments models p = (is_in p.0 departments ≡ true) × (is_in p.1 models ≡ true)

check_known-IsKnown :
    {A : Type 0} (pair : A → String × String) (field : String) (departments models : List String)
    (limits : List A)
    → is_valid (check_known field departments models (map pair limits)) ≡ true
    → All (λ limit. IsKnown departments models (pair limit)) limits
unfolding check_known
check_known-IsKnown pair field departments models [] h = tt
check_known-IsKnown pair field departments models (limit ∷ limits) h = (
  (ground (arith, h), ground (arith, h)),
  check_known-IsKnown pair field departments models limits (ground (arith, h)),
)

abbrev limit_pair : DepartmentModelConcurrencyLimitConfig → String × String
limit_pair limit = (limit.department, limit.model_name)

abbrev budget_pair : TokenBudgetConfig → String × String
budget_pair budget = (budget.department, budget.model_name)

abbrev max_of : Option DepartmentModelConcurrencyLimitConfig → Option ℕ
max_of none = none
max_of (some limit) = some limit.max_active_requests

first_limit-first_with :
    (d m : String) (limits : List DepartmentModelConcurrencyLimitConfig)
    → first_limit d m limits ≡ max_of (first_with limit_pair (d, m) limits)
unfolding first_limit
first_limit-first_with d m [] = refl
first_limit-first_with d m (limit ∷ limits) = ground (arith, first_limit-first_with d m limits)

first_budget-first_with :
    (d m : String) (budgets : List TokenBudgetConfig)
    → first_budget d m budgets ≡ first_with budget_pair (d, m) budgets
unfolding first_budget
first_budget-first_with d m [] = refl
first_budget-first_with d m (budget ∷ budgets) = ground (arith, first_budget-first_with d m budgets)

-- The limit, or the budget, is the one that the controller finds for its pair, and the pair is known.
abbrev pub LimitApplies :
    AdmissionControlConfig
    → (departments models : List String) → DepartmentModelConcurrencyLimitConfig
    → Type 0
LimitApplies config departments models limit =
    (department_model_limit config limit.department limit.model_name
      ≡ some limit.max_active_requests)
    × IsKnown departments models (limit.department, limit.model_name)

abbrev pub BudgetApplies :
    AdmissionControlConfig → (departments models : List String) → TokenBudgetConfig → Type 0
BudgetApplies config departments models budget =
    (token_budget config budget.department budget.model_name ≡ some budget)
    × IsKnown departments models (budget.department, budget.model_name)

All-both :
    {A : Type 0} {P Q R : A → Type 0} (xs : List A)
    → ((x : A) → P x → Q x → R x)
    → All P xs
    → All Q xs
    → All R xs
All-both [] f p q = tt
All-both (x ∷ xs) f p q = (f x p.0 q.0, All-both xs f p.1 q.1)

check_references-Applies :
    (config : AdmissionControlConfig) (departments models : List String)
    → is_valid (check_references config departments models) ≡ true
    → All (LimitApplies config departments models) config.department_model_limits
      × All (BudgetApplies config departments models) config.token_budgets
unfolding check_references department_model_limit token_budget
check_references-Applies config departments models h =
    let globals =
      check_models "global_model_limits" models
        (map (λ e. e.0) (items config.global_model_limits)) in
    let shapes =
      check_models "request_shape_limits" models
        (map (λ e. e.0) (items config.request_shape_limits)) in
    let limits = check_pairs "department_model_limits" [] (limit_pairs config) in
    let budgets = check_pairs "token_budgets" [] (budget_pairs config) in
    let limit_refs =
      check_known "department_model_limits" departments models (limit_pairs config) in
    let budget_refs = check_known "token_budgets" departments models (budget_pairs config) in
    let known : Validated (Unit {0}) = and_validate limit_refs λ _. budget_refs in
    let pairs : Validated (Unit {0}) = and_validate limits λ _. and_validate budgets λ _. known in
    let (_, h1) = both_valid globals (and_validate shapes λ _. pairs) h in
    let (_, h2) = both_valid shapes pairs h1 in
    let (limits_unique, h3) = both_valid limits (and_validate budgets λ _. known) h2 in
    let (budgets_unique, h4) = both_valid budgets known h3 in
    let (limits_known, budgets_known) = both_valid limit_refs budget_refs h4 in
    (
      All-both config.department_model_limits
          (λ limit found known. (
            first_limit-first_with limit.department limit.model_name config.department_model_limits
                ∙ ap max_of found,
            known,
          ))
          (check_pairs-first_with limit_pair "department_model_limits" []
            config.department_model_limits limits_unique)
          (check_known-IsKnown limit_pair "department_model_limits" departments models
            config.department_model_limits limits_known),
      All-both config.token_budgets
          (λ budget found known. (
            first_budget-first_with budget.department budget.model_name config.token_budgets
                ∙ found,
            known,
          ))
          (check_pairs-first_with budget_pair "token_budgets" [] config.token_budgets
            budgets_unique)
          (check_known-IsKnown budget_pair "token_budgets" departments models config.token_budgets
            budgets_known),
    )

references_valid :
    (config : AppConfig) (mapping : Dict Text String)
    → config.admission_control.enabled ≡ true
    → check_admission config mapping ≡ valid mapping
    → is_valid (
        check_references config.admission_control
          (map (λ e. e.1) (items mapping))
          (all_models config.upstreams))
      ≡ true
unfolding check_admission
references_valid config mapping enabled h = go config.admission_control.enabled _ enabled h
  where
    go :
        (b : Bool) (checked : Validated (Unit {0}))
        → b ≡ true
        → ◌≡◌ {A = Validated (Dict Text String)}
            (if b then and_validate checked (λ _. valid mapping) else valid mapping)
            (valid mapping)
        → is_valid checked ≡ true
    go true (valid u) e k = refl
    go true (invalid error) e k = absurd (ground (arith, k))
    go false checked e k = absurd (ground (arith, e))

-- In a valid configuration with admission control enabled, each concurrency limit of a department
-- and model, and each token budget, is the one that the controller finds for its department and
-- model, and it names a department that some API key stands for and a model of some upstream: no
-- limit is dead, and none is shadowed by another one.
pub validate_unique_constraints-Applies :
    (config : AppConfig) (mapping : Dict Text String)
    → validate_unique_constraints config ≡ valid mapping
    → config.admission_control.enabled ≡ true
    → All
        (LimitApplies config.admission_control
          (map (λ e. e.1) (items mapping))
          (all_models config.upstreams))
        config.admission_control.department_model_limits
      × All
          (BudgetApplies config.admission_control
            (map (λ e. e.1) (items mapping))
            (all_models config.upstreams))
          config.admission_control.token_budgets
validate_unique_constraints-Applies config mapping h enabled =
    check_references-Applies config.admission_control (map (λ e. e.1) (items mapping))
      (all_models config.upstreams)
      (references_valid config mapping enabled (registered_of config mapping h).2)
