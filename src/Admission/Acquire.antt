-- ===== src/Admission/Acquire.antt =====
-- `acquire` and `release`: who may start a request, and what a finished request gives back.
use vllm_source_gateway.Base.{
  ℕ, String, Bool, false, not, Option, none, some, max, ltb, leb, string_eq, pair_eq, ◌+◌, ◌-◌, ◌/◌,
  if◌then◌else◌,
}
use vllm_source_gateway.Dict.{get, put}
use vllm_source_gateway.Http.{Result, ok, raises, Outcome}
use vllm_source_gateway.Metrics.{
  inc_inflight_request, dec_inflight_request, record_token_budget_rejection,
}
use vllm_source_gateway.Admission.Config.{TokenBudgetConfig, ticks_per_second}
use vllm_source_gateway.Admission.Controller.{
  Controller, AdmissionLease, active_of_model, active_of, total_of, cooldown_of,
  department_model_limit, token_budget, record_rejection, too_many_requests, prune_tokens,
}

abbrev pub Acquired : Type 0
Acquired = Outcome Controller (Option AdmissionLease)

-- The counters go up, and the caller gets the lease.
unfoldable pub admit : Controller → (department model_name endpoint : String) → Acquired
unfolding inc_inflight_request
admit c department model_name endpoint = (
  ok (some (record { department = department; model_name = model_name; endpoint = endpoint })),
  record c {
    active_by_model = put c.active_by_model model_name (active_of_model c model_name + 1);
    active_by_department_model =
        put c.active_by_department_model (department, model_name)
          (active_of c (department, model_name) + 1);
    metrics = inc_inflight_request c.metrics department model_name endpoint;
  },
)

unfoldable pub retry_guard_error : (until now : ℕ) → Result (Option AdmissionLease)
unfolding too_many_requests
retry_guard_error until now =
    raises (too_many_requests "retry guard is open" (max 1 ((until - now) / ticks_per_second)))

unfoldable pub limit_error : Controller → String → Result (Option AdmissionLease)
unfolding too_many_requests
limit_error c detail = raises (too_many_requests detail c.config.default_retry_after_seconds)

-- self._active_by_model[model_name] >= model_limit.max_active_requests, where there is a limit
unfoldable pub model_full : Controller → String → Bool
model_full c model_name = elim (get c.config.global_model_limits model_name) [
  | none ↦ false
  | some limit ↦ leb limit.max_active_requests (active_of_model c model_name)
]

unfoldable pub department_full : Controller → (department model_name : String) → Bool
department_full c department model_name =
    elim (department_model_limit c.config department model_name) [
      | none ↦ false
      | some limit ↦ leb limit (active_of c (department, model_name))
    ]

unfoldable pub reject_budget : Controller → (department model_name : String) → Controller
unfolding record_token_budget_rejection
reject_budget c department model_name =
    let r = record_rejection c department model_name "token_budget" in
    record r { metrics = record_token_budget_rejection r.metrics department model_name }

-- The test on the token budget comes after the old events are dropped.
unfoldable pub check_budget :
    Controller → ℕ → (department model_name endpoint : String) → TokenBudgetConfig → Acquired
unfolding admit limit_error reject_budget
check_budget c now department model_name endpoint budget =
    let key : String × String = (department, model_name) in
    let p = prune_tokens c key now budget.window_seconds in
    if leb budget.max_tokens (total_of p key)
    then (limit_error p "token budget exceeded", reject_budget p department model_name)
    else admit p department model_name endpoint

unfoldable pub check_token_budget :
    Controller → ℕ → (department model_name endpoint : String) → Acquired
unfolding check_budget
check_token_budget c now department model_name endpoint =
    elim (token_budget c.config department model_name) [
      | none ↦ admit c department model_name endpoint
      | some budget ↦ check_budget c now department model_name endpoint budget
    ]

unfoldable pub acquire : Controller → ℕ → (department model_name endpoint : String) → Acquired
unfolding check_token_budget retry_guard_error limit_error
acquire c now department model_name endpoint =
    let key : String × String = (department, model_name) in
    if not c.config.enabled
    then (ok none, c)
    else if ltb now (cooldown_of c key)
    then (
      retry_guard_error (cooldown_of c key) now,
      record_rejection c department model_name "retry_guard_open",
    )
    else if model_full c model_name
    then (
      limit_error c "model concurrency limit exceeded",
      record_rejection c department model_name "model_concurrency",
    )
    else if department_full c department model_name
    then (
      limit_error c "department model concurrency limit exceeded",
      record_rejection c department model_name "department_model_concurrency",
    )
    else check_token_budget c now department model_name endpoint

-- `max(0, n - 1)` is the subtraction of ℕ.
unfoldable pub release : Controller → Option AdmissionLease → Controller
unfolding dec_inflight_request
release c none = c
release c (some lease) =
    let key : String × String = (lease.department, lease.model_name) in
    record c {
      active_by_model =
          put c.active_by_model lease.model_name (active_of_model c lease.model_name - 1);
      active_by_department_model = put c.active_by_department_model key (active_of c key - 1);
      metrics = dec_inflight_request c.metrics lease.department lease.model_name lease.endpoint;
    }
