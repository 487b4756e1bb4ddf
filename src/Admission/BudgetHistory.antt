-- ===== src/Admission/BudgetHistory.antt =====
-- The budget of one department and model along a history: what the controller keeps between calls.
use mathlib.Core.List.{append-nil, append_assoc}
use vllm_source_gateway.Base.{
  ℕ, ℤ, pos, to_nat, leb_ℤ, String, ◌≡◌, refl, ap, sym, subst, ◌∙◌, ◌≤◌, List, [], ◌∷◌, ◌++◌, beq,
  string_eq, pair_eq, if◌then◌else◌, option_rule, Bool, Bool-cases, inl, inr, true, false, not,
  ◌&&◌, ◌||◌, Option, none, some,
}
use vllm_source_gateway.Dict.{get-empty}
use vllm_source_gateway.Admission.Config.{AdmissionControlConfig, TokenBudgetConfig}
use vllm_source_gateway.Admission.Controller.{
  Controller, Key, TokenEvent, init, token_budget, prune_tokens,
}
use vllm_source_gateway.Admission.Accounting.{record_tokens, append_tokens}
use vllm_source_gateway.Admission.Budget.{Tracks, append-Tracks, append-Tracks_ne}
use vllm_source_gateway.Admission.History.{
  Call, acquires, releases, checks_shape, records_tokens, records_retry, perform, run, IsOrdered,
  last_time, recorded_by, recorded, release-SameTokens, retry-SameTokens, shape-SameTokens,
}
use vllm_source_gateway.Admission.BudgetKept.{
  Kept, same-Kept, later-Kept, same_key, prune-Kept, acquire-Kept,
}

-- The histories of a budget: admission control is on, and `budget` is the one of `d` and `m`.
module _ (config : AdmissionControlConfig) (d m : String) (budget : TokenBudgetConfig)
    (on : config.enabled ≡ true) (is_budget : token_budget config d m ≡ some budget) where
  abbrev pub Held : Controller → List TokenEvent → ℕ → Type 0
  Held = Kept config d m budget on is_budget

  append-config :
      (c : Controller) (key : Key) (now n : ℕ) → (append_tokens c key now n).config ≡ c.config
  unfolding append_tokens
  append-config c key now n = refl

  -- The branch of `record_tokens` that records, at any key.
  append-Kept :
      (a b : String) (other : TokenBudgetConfig) (n : ℕ) {c : Controller} {all : List TokenEvent}
      (now : ℕ)
      → token_budget c.config a b ≡ some other
      → Held c all now
      → Held
          (append_tokens (prune_tokens c (a, b) now other.window_seconds) (a, b) now n)
          (all ++ (if beq {K = Key} (a, b) (d, m) then (now, n) ∷ [] else []))
          now
  append-Kept a b other n {c} {all} now is_other k =
      let p = prune_tokens c (a, b) now other.window_seconds in
      let kept = prune-Kept config d m budget on is_budget a b other now is_other k in
      record {
        same_config = append-config p (a, b) now n ∙ kept.same_config;
        tracks = elim (Bool-cases (beq {K = Key} (a, b) (d, m))) [
          | inl same ↦
              subst
                (λ (y : Bool).
                  Tracks budget.window_seconds (append_tokens p (a, b) now n) (d, m)
                    (all ++ (if y then (now, n) ∷ [] else [])) now)
                (sym same)
                (subst
                  (λ (key : Key).
                    Tracks budget.window_seconds (append_tokens p key now n) (d, m)
                      (all ++ (now, n) ∷ []) now)
                  (sym (same_key config d m budget on is_budget a b same))
                  (append-Tracks now n kept.tracks))
          | inr differs ↦
              subst
                (λ (y : Bool).
                  Tracks budget.window_seconds (append_tokens p (a, b) now n) (d, m)
                    (all ++ (if y then (now, n) ∷ [] else [])) now)
                (sym differs) (rw append-nil (append-Tracks_ne now n (a, b) differs kept.tracks))
        ];
      }

  -- A pair without a budget is not `d` and `m`.
  no_budget-Kept :
      (a b : String) (n : ℕ) {c : Controller} {all : List TokenEvent} (now : ℕ)
      → token_budget c.config a b ≡ none
      → Held c all now
      → Held c (all ++ (if beq {K = Key} (a, b) (d, m) then (now, n) ∷ [] else [])) now
  no_budget-Kept a b n {c} {all} now missing k = elim (Bool-cases (beq {K = Key} (a, b) (d, m))) [
    | inl same ↦
        let found : token_budget c.config a b ≡ token_budget config d m =
          ap (λ (g : AdmissionControlConfig). token_budget g a b) k.same_config
          ∙ ap (λ (key : Key). token_budget config key.0 key.1)
              (same_key config d m budget on is_budget a b same) in
        let clash : ◌≡◌ {A = Option TokenBudgetConfig} none (some budget) =
          sym missing ∙ found ∙ is_budget in
        cc
    | inr differs ↦
        subst (λ (y : Bool). Held c (all ++ (if y then (now, n) ∷ [] else [])) now) (sym differs)
          (rw append-nil k)
  ]

  -- `spent` stands for `tokens <= 0`.
  record_if-Kept :
      (a b : String) (n : ℕ) {c : Controller} {all : List TokenEvent} (now : ℕ) (spent : Bool)
      → Held c all now
      → Held
          (if spent then c else elim (token_budget c.config a b) [
            | none ↦ c
            | some other ↦
                append_tokens (prune_tokens c (a, b) now other.window_seconds) (a, b) now n
          ])
          (all ++ (if not spent && beq {K = Key} (a, b) (d, m) then (now, n) ∷ [] else []))
          now
  record_if-Kept a b n now true k = rw append-nil k
  record_if-Kept a b n {c} {all} now false k =
      option_rule
        (λ q. Held q (all ++ (if beq {K = Key} (a, b) (d, m) then (now, n) ∷ [] else [])) now)
        (token_budget c.config a b) c
        (λ other. append_tokens (prune_tokens c (a, b) now other.window_seconds) (a, b) now n)
        (λ missing. no_budget-Kept a b n now missing k)
        (λ other is_other. append-Kept a b other n now is_other k)

  record_tokens-Kept :
      (a b : String) (tokens : ℤ) {c : Controller} {all : List TokenEvent} (now : ℕ)
      → Held c all now
      → Held
          (record_tokens c now a b tokens)
          (all ++ recorded_by (d, m) (now, records_tokens a b tokens))
          now
  unfolding record_tokens
  record_tokens-Kept a b tokens {c} {all} now k =
      subst
        (λ (enabled : Bool).
          Held
            (if not enabled || leb_ℤ tokens (pos 0) then c else elim (token_budget c.config a b) [
              | none ↦ c
              | some other ↦
                  append_tokens (prune_tokens c (a, b) now other.window_seconds) (a, b) now
                    (to_nat tokens)
            ])
            (all ++ recorded_by (d, m) (now, records_tokens a b tokens)) now)
        (sym (ap (λ (g : AdmissionControlConfig). g.enabled) k.same_config ∙ on))
        (record_if-Kept a b (to_nat tokens) now (leb_ℤ tokens (pos 0)) k)

  -- One call, at a time that is not before the last one.
  perform-Kept :
      (call : ℕ × Call) {c : Controller} {all : List TokenEvent} {last : ℕ}
      → last ≤ call.0
      → Held c all last
      → Held (perform c call) (all ++ recorded_by (d, m) call) call.0
  unfolding perform
  perform-Kept (now, acquires a b e) later k = rw append-nil (
      acquire-Kept config d m budget on is_budget a b e now
        (later-Kept config d m budget on is_budget later k))
  perform-Kept (now, releases l) {c} later k = rw append-nil (
      same-Kept config d m budget on is_budget (release-SameTokens c l)
        (later-Kept config d m budget on is_budget later k))
  perform-Kept (now, checks_shape a b e body_size payload) {c} later k = rw append-nil (
      same-Kept config d m budget on is_budget (shape-SameTokens c a b e body_size payload)
        (later-Kept config d m budget on is_budget later k))
  perform-Kept (now, records_tokens a b tokens) later k =
      record_tokens-Kept a b tokens now (later-Kept config d m budget on is_budget later k)
  perform-Kept (now, records_retry a b) {c} later k = rw append-nil (
      same-Kept config d m budget on is_budget (retry-SameTokens c now a b)
        (later-Kept config d m budget on is_budget later k))

  pub run-Kept :
      (calls : List (ℕ × Call)) (c : Controller) (all : List TokenEvent) (last : ℕ)
      → IsOrdered last calls
      → Held c all last
      → Held (run c calls) (all ++ recorded (d, m) calls) (last_time last calls)
  unfolding run
  run-Kept [] c all last ordered k = rw append-nil k
  run-Kept (call ∷ calls) c all last ordered k =
      rw (← append_assoc all (recorded_by (d, m) call) (recorded (d, m) calls)) (
        run-Kept calls (perform c call) (all ++ recorded_by (d, m) call) call.0 ordered.1
          (perform-Kept call ordered.0 k))

  start-Kept : Held (init config []) [] 0
  unfolding init
  start-Kept = record {
    same_config = refl;
    tracks = record {
      old = [];
      whole = rw get-empty;
      gone = tt;
      total = rw (get-empty, get-empty);
      ascending = rw get-empty tt;
      bounded = rw get-empty tt;
    };
  }

  -- After any ordered history.
  pub history-Kept :
      (calls : List (ℕ × Call))
      → IsOrdered 0 calls
      → Held (run (init config []) calls) (recorded (d, m) calls) (last_time 0 calls)
  history-Kept calls ordered = run-Kept calls (init config []) [] 0 ordered start-Kept
