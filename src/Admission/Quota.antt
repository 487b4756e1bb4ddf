-- ===== src/Admission/Quota.antt =====
-- The token budget as a promise: tokens of the last window against the maximum.
use vllm_source_gateway.Base.{
  ℕ, String, ◌≡◌, ◌≤◌, ap, ◌∙◌, List, true, false, Option, some, leb, ltb, arith, if◌then◌else◌,
  not, [], if_rule,
}
use vllm_source_gateway.Http.{Result, ok, raises}
use vllm_source_gateway.Admission.Config.{AdmissionControlConfig, TokenBudgetConfig}
use vllm_source_gateway.Admission.Controller.{
  Controller, AdmissionLease, init, cooldown_of, token_budget, too_many_requests, prune_tokens,
  total_of,
}
use vllm_source_gateway.Admission.Acquire.{
  acquire, check_budget, model_full, department_full, check_token_budget, Acquired,
}
use vllm_source_gateway.Admission.Window.{window_sum}
use vllm_source_gateway.Admission.Budget.{total-prune-window}
use vllm_source_gateway.Admission.Leases.{lease_of}
use vllm_source_gateway.Admission.History.{Call, run, recorded, IsOrdered, last_time}
use vllm_source_gateway.Admission.BudgetHistory.{history-Kept}

budgeted :
    (c : Controller) (now : ℕ) (d m e : String) (budget : TokenBudgetConfig)
    → token_budget c.config d m ≡ some budget
    → check_token_budget c now d m e ≡ check_budget c now d m e budget
unfolding check_token_budget
budgeted c now d m e budget is_budget = rw (is_budget, check_token_budget)

-- Where no earlier guard refuses, the budget decides.
acquire-check_budget :
    (c : Controller) (now : ℕ) (d m e : String) (budget : TokenBudgetConfig)
    → c.config.enabled ≡ true
    → cooldown_of c (d, m) ≤ now
    → model_full c m ≡ false
    → department_full c d m ≡ false
    → token_budget c.config d m ≡ some budget
    → acquire c now d m e ≡ check_budget c now d m e budget
unfolding acquire
acquire-check_budget c now d m e budget on cool open_model open_department is_budget =
    let P : Acquired → Type 0 = λ r. r ≡ check_budget c now d m e budget in
    if_rule P (not c.config.enabled) _ _ (λ h. absurd (ground arith))
      λ _.
        if_rule P (ltb now (cooldown_of c (d, m))) _ _ (λ h. absurd (ground arith))
          λ _.
            if_rule P (model_full c m) _ _ (λ h. absurd (ground arith))
              λ _.
                if_rule P (department_full c d m) _ _ (λ h. absurd (ground arith))
                  λ _. budgeted c now d m e budget is_budget

abbrev budget_error : AdmissionControlConfig → Result (Option AdmissionLease)
budget_error config =
    raises (too_many_requests "token budget exceeded" config.default_retry_after_seconds)

check_budget-window :
    (c : Controller) (now : ℕ) (d m e : String) (budget : TokenBudgetConfig) (spent : ℕ)
    → total_of (prune_tokens c (d, m) now budget.window_seconds) (d, m) ≡ spent
    → (check_budget c now d m e budget).0
      ≡ (if leb budget.max_tokens spent then budget_error c.config else ok (some (lease_of d m e)))
unfolding check_budget prune_tokens
check_budget-window c now d m e budget spent total = ground (arith, total)

-- With admission control on and a budget for the department and the model, after any history of
-- calls at times that do not fall, an `acquire` that no cooldown and no concurrency limit refuses
-- is refused by the budget, with the configured Retry-After, exactly when the positive token counts
-- that were recorded for the pair in the last `window_seconds` sum up to `max_tokens` or more;
-- otherwise it returns a lease.
pub acquire-window :
    (config : AdmissionControlConfig) (d m e : String) (budget : TokenBudgetConfig)
    (calls : List (ℕ × Call)) (now : ℕ)
    → config.enabled ≡ true
    → token_budget config d m ≡ some budget
    → IsOrdered 0 calls
    → last_time 0 calls ≤ now
    → cooldown_of (run (init config []) calls) (d, m) ≤ now
    → model_full (run (init config []) calls) m ≡ false
    → department_full (run (init config []) calls) d m ≡ false
    → (acquire (run (init config []) calls) now d m e).0 ≡ (
        if leb budget.max_tokens (window_sum now budget.window_seconds (recorded (d, m) calls))
        then raises (too_many_requests "token budget exceeded" config.default_retry_after_seconds)
        else ok (some (lease_of d m e)))
acquire-window config d m e budget calls now on is_budget ordered later cool open_model
      open_department =
    let c = run (init config []) calls in
    let k = history-Kept config d m budget on is_budget calls ordered in
    ap (λ (r : Acquired). r.0)
      (acquire-check_budget c now d m e budget
        (ap (λ (g : AdmissionControlConfig). g.enabled) k.same_config ∙ on) cool open_model
        open_department
        (ap (λ (g : AdmissionControlConfig). token_budget g d m) k.same_config ∙ is_budget))
    ∙ check_budget-window c now d m e budget _ (total-prune-window now later k.tracks)
    ∙ ap
        (λ (g : AdmissionControlConfig).
          if leb budget.max_tokens (window_sum now budget.window_seconds (recorded (d, m) calls))
          then budget_error g
          else ok (some (lease_of d m e)))
        k.same_config
