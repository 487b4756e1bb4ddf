-- ===== src/Admission/BudgetKept.antt =====
-- The budget of one department and model: what `acquire` keeps of it.

use native.Mathlib.Nat.{le_refl}
use vllm_source_gateway.Base.{
  ℕ, leb, ltb, String, ◌≡◌, ap, sym, subst, ◌∙◌, ◌≤◌, List, beq, string_eq, pair_eq, if_rule,
  option_rule, Bool-cases, inl, inr, true, not, some, some_inj,
}
use vllm_source_gateway.Admission.Config.{AdmissionControlConfig, TokenBudgetConfig}
use vllm_source_gateway.Admission.Controller.{
  Controller, Key, TokenEvent, total_of, token_budget, prune_tokens, cooldown_of,
}
use vllm_source_gateway.Admission.Acquire.{
  Acquired, acquire, admit, reject_budget, model_full, department_full, limit_error,
}
use vllm_source_gateway.Admission.Budget.{Tracks, prune-Tracks, prune-Tracks_ne}
use vllm_source_gateway.Admission.History.{
  SameTokens, same-Tracks, later-Tracks, admit-SameTokens, rejection-SameTokens,
  reject_budget-SameTokens,
}

-- The histories of a budget: admission control is on, and `budget` is the one of `d` and `m`.
module _ (config : AdmissionControlConfig) (d m : String) (budget : TokenBudgetConfig)
    (on : config.enabled ≡ true) (is_budget : token_budget config d m ≡ some budget) where
  abbrev pub window : ℕ
  window = budget.window_seconds

  -- What is kept between two calls.
  pub record Kept (c : Controller) (all : List TokenEvent) (last : ℕ) : Type 0 where
    pub same_config : c.config ≡ config
    pub tracks : Tracks window c (d, m) all last

  pub same-Kept :
      {c q : Controller} {all : List TokenEvent} {last : ℕ}
      → SameTokens c q
      → Kept c all last
      → Kept q all last
  same-Kept s k = record { same_config = s.config ∙ k.same_config; tracks = same-Tracks s k.tracks }

  pub later-Kept :
      {c : Controller} {all : List TokenEvent} {last now : ℕ}
      → last ≤ now
      → Kept c all last
      → Kept c all now
  later-Kept later k = record { same_config = k.same_config; tracks = later-Tracks later k.tracks }

  pub same_key : (a b : String) → beq {K = Key} (a, b) (d, m) ≡ true → ◌≡◌ {A = Key} (a, b) (d, m)
  same_key a b same = (pair_eq.test_iff (a, b) (d, m)).0 same

  same_budget :
      (a b : String) (other : TokenBudgetConfig)
      → ◌≡◌ {A = Key} (a, b) (d, m)
      → token_budget config a b ≡ some other
      → other ≡ budget
  same_budget a b other p is_other =
      some_inj (sym is_other ∙ ap (λ (key : Key). token_budget config key.0 key.1) p ∙ is_budget)

  -- Whichever key and whichever budget the old events are dropped for.
  prune_any-Tracks :
      (a b : String) (other : TokenBudgetConfig) (c : Controller) (all : List TokenEvent) (now : ℕ)
      → token_budget config a b ≡ some other
      → Tracks window c (d, m) all now
      → Tracks window (prune_tokens c (a, b) now other.window_seconds) (d, m) all now
  prune_any-Tracks a b other c all now is_other t =
      elim (Bool-cases (beq {K = Key} (a, b) (d, m))) [
        | inl same ↦
            subst
              (λ (o : TokenBudgetConfig).
                Tracks window (prune_tokens c (a, b) now o.window_seconds) (d, m) all now)
              (sym (same_budget a b other (same_key a b same) is_other))
              (subst (λ (key : Key). Tracks window (prune_tokens c key now window) (d, m) all now)
                (sym (same_key a b same)) (prune-Tracks now (le_refl now) t))
        | inr differs ↦ prune-Tracks_ne now (a, b) other.window_seconds differs (le_refl now) t
      ]

  pub prune-Kept :
      (a b : String) (other : TokenBudgetConfig) {c : Controller} {all : List TokenEvent} (now : ℕ)
      → token_budget c.config a b ≡ some other
      → Kept c all now
      → Kept (prune_tokens c (a, b) now other.window_seconds) all now
  unfolding prune_tokens
  prune-Kept a b other {c} {all} now is_other k = record {
    same_config = k.same_config;
    tracks =
        prune_any-Tracks a b other c all now
          (subst (λ (g : AdmissionControlConfig). token_budget g a b ≡ some other) k.same_config
            is_other)
          k.tracks;
  }

  abbrev KeptAfter : List TokenEvent → ℕ → Acquired → Type 0
  KeptAfter all now r = Kept r.1 all now

  pub acquire-Kept :
      (a b e : String) {c : Controller} {all : List TokenEvent} (now : ℕ)
      → Kept c all now
      → Kept (acquire c now a b e).1 all now
  unfolding acquire
  acquire-Kept a b e {c} {all} now k =
      let P : Acquired → Type 0 = KeptAfter all now in
      if_rule P (not c.config.enabled) _ _ (λ _. k)
        λ _.
          if_rule P (ltb now (cooldown_of c (a, b))) _ _
            (λ _. same-Kept (rejection-SameTokens c a b "retry_guard_open") k)
            λ _.
              if_rule P (model_full c b) _ _
                (λ _. same-Kept (rejection-SameTokens c a b "model_concurrency") k)
                λ _.
                  if_rule P (department_full c a b) _ _
                    (λ _. same-Kept (rejection-SameTokens c a b "department_model_concurrency") k)
                    λ _.
                      option_rule P (token_budget c.config a b) _ _
                        (λ _. same-Kept (admit-SameTokens c a b e) k)
                        λ other found.
                          let p = prune_tokens c (a, b) now other.window_seconds in
                          let kept = prune-Kept a b other now found k in
                          if_rule P (leb other.max_tokens (total_of p (a, b)))
                            (limit_error p "token budget exceeded", reject_budget p a b)
                            (admit p a b e) (λ _. same-Kept (reject_budget-SameTokens p a b) kept)
                            (λ _. same-Kept (admit-SameTokens p a b e) kept)
