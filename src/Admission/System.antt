-- ===== src/Admission/System.antt =====
-- Histories of calls on the controller, and what holds after each of them.
use vllm_source_gateway.Base.{
  ℕ, ℤ, String, ◌≡◌, refl, ap, subst, ◌≤◌, List, [], ◌∷◌, ◌++◌, false, Option, some, string_eq,
  pair_eq, count_by, count_by-middle, arith, ◌∙◌,
}
use vllm_source_gateway.Dict.{get, get-empty}
use vllm_source_gateway.Json.{Fields}
use vllm_source_gateway.Http.{Result, ok, Outcome}
use vllm_source_gateway.Admission.Config.{AdmissionControlConfig, ModelConcurrencyLimitConfig}
use vllm_source_gateway.Admission.Controller.{
  Controller, AdmissionLease, init, department_model_limit,
}
use vllm_source_gateway.Admission.Shape.{check_request_shape}
use vllm_source_gateway.Admission.Acquire.{
  Acquired, acquire, release, admit, model_full, department_full,
}
use vllm_source_gateway.Admission.Accounting.{record_tokens, record_retry_event}
use vllm_source_gateway.Admission.Cases.{Frame, acquire_rule}
use vllm_source_gateway.Admission.Frames.{
  check_request_shape-Frame, record_tokens-Frame, record_retry_event-Frame,
}
use vllm_source_gateway.Admission.Leases.{
  on_model, on_key, Counts, Counts-Frame, admit-Counts, release-Counts, lease_of, on_labels,
}

-- The controller, and the leases that its callers hold.
pub record System : Type 0 where
  pub controller : Controller
  pub held : List AdmissionLease

-- The leases after `acquire` returned or raised.
abbrev pub taken : Result (Option AdmissionLease) → List AdmissionLease → List AdmissionLease
taken (ok (some l)) held = l ∷ held
taken _ held = held

-- One call of a caller that gives back only leases that it holds.
pub data Step (s t : System) : Type 0 where
  acquires :
      (now : ℕ) (d m e : String) (r : Result (Option AdmissionLease))
      → acquire s.controller now d m e ≡ (r, t.controller)
      → t.held ≡ taken r s.held
      → Step s t
  releases :
      (xs : List AdmissionLease) (l : AdmissionLease) (ys : List AdmissionLease)
      → s.held ≡ xs ++ l ∷ ys
      → t.controller ≡ release s.controller (some l)
      → t.held ≡ xs ++ ys
      → Step s t
  checks_shape :
      (d m e : String) (body_size : ℕ) (payload : Fields) (r : Result Fields)
      → check_request_shape s.controller d m e body_size payload ≡ (r, t.controller)
      → t.held ≡ s.held
      → Step s t
  records_tokens :
      (now : ℕ) (d m : String) (tokens : ℤ)
      → t.controller ≡ record_tokens s.controller now d m tokens
      → t.held ≡ s.held
      → Step s t
  records_retry :
      (now : ℕ) (d m : String)
      → t.controller ≡ record_retry_event s.controller now d m
      → t.held ≡ s.held
      → Step s t

pub data Reach (s : System) : System → Type 0 where
  here : Reach s s
  next : {t u : System} → Reach s t → Step t u → Reach s u

-- The counters are right, and no limit is passed.
pub record IsSafe (config : AdmissionControlConfig) (c : Controller) (held : List AdmissionLease)
    : Type 0 where
  pub same_config : c.config ≡ config
  pub counts : Counts c held
  pub within_model :
      (m : String) (limit : ModelConcurrencyLimitConfig)
      → get config.global_model_limits m ≡ some limit
      → count_by (on_model m) held ≤ limit.max_active_requests
  pub within_department :
      (d m : String) (limit : ℕ)
      → department_model_limit config d m ≡ some limit
      → count_by (on_key (d, m)) held ≤ limit

model_full-Frame : {c q : Controller} (m : String) → Frame c q → model_full q m ≡ model_full c m
unfolding model_full
model_full-Frame m f = rw (f.config, f.by_model)

department_full-Frame :
    {c q : Controller} (d m : String) → Frame c q → department_full q d m ≡ department_full c d m
unfolding department_full
department_full-Frame d m f = rw (f.config, f.by_department)

module _ (config : AdmissionControlConfig) where
  Frame-IsSafe :
      {c q : Controller} {held : List AdmissionLease}
      → Frame c q
      → IsSafe config c held
      → IsSafe config q held
  Frame-IsSafe f s = record {
    same_config = f.config ∙ s.same_config;
    counts = Counts-Frame f s.counts;
    within_model = s.within_model;
    within_department = s.within_department;
  }

  -- `admit` is called only below the limits, so one more lease stays within them.
  admit-IsSafe :
      (c : Controller) (held : List AdmissionLease) (d m e : String)
      → model_full c m ≡ false
      → department_full c d m ≡ false
      → IsSafe config c held
      → IsSafe config (admit c d m e).1 (lease_of d m e ∷ held)
  unfolding admit model_full department_full
  admit-IsSafe c held d m e open_model open_department s = record {
    same_config = s.same_config;
    counts = admit-Counts c d m e held s.counts;
    within_model = λ n limit is_limit. ground (
      arith,
      string_eq.test_iff m n,
      s.within_model n limit,
      s.counts.by_model m,
      s.same_config,
      ap (λ (k : AdmissionControlConfig). get k.global_model_limits m) s.same_config,
    );
    within_department = λ a b limit is_limit. ground (
      arith,
      pair_eq.test_iff (d, m) (a, b),
      s.within_department a b limit,
      s.counts.by_key (d, m),
      s.same_config,
      ap (λ (k : AdmissionControlConfig). department_model_limit k d m) s.same_config,
    );
  }

  release-IsSafe :
      (c : Controller) (xs : List AdmissionLease) (l : AdmissionLease) (ys : List AdmissionLease)
      → IsSafe config c (xs ++ l ∷ ys)
      → IsSafe config (release c (some l)) (xs ++ ys)
  unfolding release
  release-IsSafe c xs l ys s = record {
    same_config = s.same_config;
    counts = release-Counts c l (xs ++ ys) (record {
      by_model = λ m. s.counts.by_model m ∙ count_by-middle (on_model m) xs l ys;
      by_key = λ k. s.counts.by_key k ∙ count_by-middle (on_key k) xs l ys;
      gauge =
          λ d m e. omega (arith, s.counts.gauge d m e, count_by-middle (on_labels d m e) xs l ys);
    });
    within_model =
        λ m limit h. ground (arith, s.within_model m limit h, count_by-middle (on_model m) xs l ys);
    within_department = λ d m limit h.
        ground (arith, s.within_department d m limit h, count_by-middle (on_key (d, m)) xs l ys);
  }

  abbrev IsSafeSystem : System → Type 0
  IsSafeSystem t = IsSafe config t.controller t.held

  abbrev Served : List AdmissionLease → Acquired → Type 0
  Served held r = IsSafe config r.1 (taken r.0 held)

  acquire-IsSafe :
      (c : Controller) (held : List AdmissionLease) (now : ℕ) (d m e : String)
      → IsSafe config c held
      → Served held (acquire c now d m e)
  unfolding admit
  acquire-IsSafe c held now d m e s =
      acquire_rule (Served held) c now d m e (λ _. s) (λ x q f. Frame-IsSafe f s)
        λ q f open_model open_department.
          admit-IsSafe q held d m e (model_full-Frame m f ∙ open_model)
            (department_full-Frame d m f ∙ open_department) (Frame-IsSafe f s)

  -- Every call of a caller that gives back only what it holds keeps the controller safe.
  Step-IsSafe : {s t : System} → IsSafeSystem s → Step s t → IsSafeSystem t
  Step-IsSafe {s} {t} v (acquires now d m e r called now_held) =
      rw now_held (subst (Served s.held) called (acquire-IsSafe s.controller s.held now d m e v))
  Step-IsSafe {s} {t} v (releases xs l ys held called now_held) =
      rw (now_held, called)
        (release-IsSafe s.controller xs l ys (subst (IsSafe config s.controller) held v))
  Step-IsSafe {s} {t} v (checks_shape d m e body_size payload r called now_held) = rw now_held (
      Frame-IsSafe
        (subst (λ (o : Outcome Controller Fields). Frame s.controller o.1) called
          (check_request_shape-Frame s.controller d m e body_size payload))
        v)
  Step-IsSafe {s} {t} v (records_tokens now d m tokens called now_held) =
      rw (now_held, called) (Frame-IsSafe (record_tokens-Frame s.controller now d m tokens) v)
  Step-IsSafe {s} {t} v (records_retry now d m called now_held) =
      rw (now_held, called) (Frame-IsSafe (record_retry_event-Frame s.controller now d m) v)

  Reach-IsSafe : {s t : System} → IsSafeSystem s → Reach s t → IsSafeSystem t
  Reach-IsSafe v here = v
  Reach-IsSafe v (next r st) = Step-IsSafe (Reach-IsSafe v r) st

-- A new controller, before any call.
abbrev pub start : AdmissionControlConfig → System
start config = record { controller = init config []; held = [] }

init-IsSafe : (config : AdmissionControlConfig) → IsSafe config (init config []) []
unfolding init
init-IsSafe config = record {
  same_config = refl;
  counts = record {
    by_model = λ m. rw get-empty;
    by_key = λ k. rw get-empty;
    gauge = λ d m e. omega arith;
  };
  within_model = λ m limit h. omega arith;
  within_department = λ d m limit h. omega arith;
}

-- After any history of calls on a new controller, made by callers that give back only leases that
-- they hold: the active counts of each model and of each department and model are the number of
-- leases held, the gauge has that value for each label triple, and no model and no department
-- holds more leases than its limit.
pub Reach-start-IsSafe :
    (config : AdmissionControlConfig) {t : System}
    → Reach (start config) t
    → IsSafe config t.controller t.held
Reach-start-IsSafe config r = Reach-IsSafe config (init-IsSafe config) r
