-- ===== src/Admission/Cases.antt =====
-- The outcomes of `acquire`: one rule from which each property of it follows.
use vllm_source_gateway.Base.{
  ℕ, String, ◌≡◌, refl, false, none, ltb, leb, not, arith, if_rule, option_rule,
}
use vllm_source_gateway.Http.{HttpException, ok, raises}
use vllm_source_gateway.Metrics.Inflight.{inflight_incs, inflight_decs}
use vllm_source_gateway.Admission.Config.{TokenBudgetConfig}
use vllm_source_gateway.Admission.Controller.{
  Controller, total_of, cooldown_of, token_budget, prune_tokens, record_rejection,
}
use vllm_source_gateway.Admission.Acquire.{
  Acquired, acquire, admit, model_full, department_full, check_budget, reject_budget, limit_error,
}

-- `q` has the configuration, the counters and the gauge of `c`.
pub record Frame (c q : Controller) : Type 0 where
  pub config : q.config ≡ c.config
  pub by_model : q.active_by_model ≡ c.active_by_model
  pub by_department : q.active_by_department_model ≡ c.active_by_department_model
  pub incs : (d m e : String) → inflight_incs d m e q.metrics ≡ inflight_incs d m e c.metrics
  pub decs : (d m e : String) → inflight_decs d m e q.metrics ≡ inflight_decs d m e c.metrics

pub Frame-refl : (c : Controller) → Frame c c
Frame-refl c = record {
  config = refl;
  by_model = refl;
  by_department = refl;
  incs = λ d m e. refl;
  decs = λ d m e. refl;
}

pub prune_tokens-Frame :
    (c : Controller) (key : String × String) (now window : ℕ)
    → Frame c (prune_tokens c key now window)
unfolding prune_tokens
prune_tokens-Frame c key now window = record {
  config = refl;
  by_model = refl;
  by_department = refl;
  incs = λ d m e. refl;
  decs = λ d m e. refl;
}

pub record_rejection-Frame :
    (c : Controller) (d m reason : String) → Frame c (record_rejection c d m reason)
unfolding record_rejection
record_rejection-Frame c d m reason = record {
  config = refl;
  by_model = refl;
  by_department = refl;
  incs = λ d m e. refl;
  decs = λ d m e. refl;
}

reject_budget-Frame : (c p : Controller) (d m : String) → Frame c p → Frame c (reject_budget p d m)
unfolding reject_budget record_rejection
reject_budget-Frame c p d m f = record {
  config = f.config;
  by_model = f.by_model;
  by_department = f.by_department;
  incs = f.incs;
  decs = f.decs;
}

module _ {ℓ} (P : Acquired → Type ℓ) (c : Controller) (now : ℕ) (d m e : String) where
  check_budget_rule :
      (budget : TokenBudgetConfig)
      → ((x : HttpException) (q : Controller) → Frame c q → P (raises x, q))
      → ((q : Controller) → Frame c q → P (admit q d m e))
      → P (check_budget c now d m e budget)
  unfolding check_budget
  check_budget_rule budget refused admitted =
      let p = prune_tokens c (d, m) now budget.window_seconds in
      let pruned = prune_tokens-Frame c (d, m) now budget.window_seconds in
      if_rule P (leb budget.max_tokens (total_of p (d, m)))
        (limit_error p "token budget exceeded", reject_budget p d m) (admit p d m e)
        (λ _. refused _ (reject_budget p d m) (reject_budget-Frame c p d m pruned))
        (λ _. admitted p pruned)

  -- `acquire` is disabled, or refuses and changes no counter, or admits; what it refuses or
  -- admits with differs from `c` in dropped token events and new samples at most.
  pub acquire_rule :
      (c.config.enabled ≡ false → P (ok none, c))
      → ((x : HttpException) (q : Controller) → Frame c q → P (raises x, q))
      → ((q : Controller)
          → Frame c q
          → model_full c m ≡ false
          → department_full c d m ≡ false
          → P (admit q d m e))
      → P (acquire c now d m e)
  unfolding acquire
  acquire_rule disabled refused admitted =
      if_rule P (not c.config.enabled) _ _ (λ h. disabled (ground arith))
        λ _.
          if_rule P (ltb now (cooldown_of c (d, m))) _ _
            (λ _. refused _ _ (record_rejection-Frame c d m "retry_guard_open"))
            λ _.
              if_rule P (model_full c m) _ _
                (λ _. refused _ _ (record_rejection-Frame c d m "model_concurrency"))
                λ open_model.
                  if_rule P (department_full c d m) _ _
                    (λ _. refused _ _ (record_rejection-Frame c d m "department_model_concurrency"))
                    λ open_department.
                      option_rule P (token_budget c.config d m) _ _
                        (λ _. admitted c (Frame-refl c) open_model open_department)
                        λ budget _.
                          check_budget_rule budget refused
                            λ q f. admitted q f open_model open_department
