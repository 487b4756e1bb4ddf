-- ===== src/Admission/Frames.antt =====
-- The calls that change no counter: `check_request_shape`, `record_tokens`, `record_retry_event`.
use vllm_source_gateway.Base.{
  ℕ, ℤ, String, string_eq, refl, not, ◌||◌, ◌&&◌, if_rule, option_rule, leb_ℤ, pos, ltb, leb,
  length, to_nat, List,
}
use vllm_source_gateway.Dict.{get}
use vllm_source_gateway.Json.{Fields}
use vllm_source_gateway.Http.{Outcome}
use vllm_source_gateway.Admission.Controller.{Controller, token_budget, prune_tokens, cooldown_of}
use vllm_source_gateway.Admission.Shape.{
  check_request_shape, reject_shape, body_too_large, bad_output_cap, bad_n,
  extract_valid_max_output_tokens, ShapeReason, reason_label, request_body_too_large,
  max_output_tokens, n_greater_than_one,
}
use vllm_source_gateway.Admission.Accounting.{
  record_tokens, record_retry_event, open_retry_guard, keep_retries, recent_retries, append_tokens,
}
use vllm_source_gateway.Admission.Cases.{
  Frame, Frame-refl, prune_tokens-Frame, record_rejection-Frame,
}

append_tokens-Frame :
    (c p : Controller) (key : String × String) (now tokens : ℕ)
    → Frame c p
    → Frame c (append_tokens p key now tokens)
unfolding append_tokens
append_tokens-Frame c p key now tokens f = record {
  config = f.config;
  by_model = f.by_model;
  by_department = f.by_department;
  incs = f.incs;
  decs = f.decs;
}

pub record_tokens-Frame :
    (c : Controller) (now : ℕ) (d m : String) (tokens : ℤ)
    → Frame c (record_tokens c now d m tokens)
unfolding record_tokens
record_tokens-Frame c now d m tokens =
    if_rule (Frame c) (not c.config.enabled || leb_ℤ tokens (pos 0)) c _ (λ _. Frame-refl c)
      λ _.
        option_rule (Frame c) (token_budget c.config d m) c
          (λ b.
            append_tokens (prune_tokens c (d, m) now b.window_seconds) (d, m) now (to_nat tokens))
          (λ _. Frame-refl c)
          λ b _.
            append_tokens-Frame c _ (d, m) now _ (prune_tokens-Frame c (d, m) now b.window_seconds)

open_retry_guard-Frame :
    (c : Controller) (now : ℕ) (d m : String) → Frame c (open_retry_guard c now d m)
unfolding open_retry_guard
open_retry_guard-Frame c now d m = record {
  config = refl;
  by_model = refl;
  by_department = refl;
  incs = λ a b e. refl;
  decs = λ a b e. refl;
}

keep_retries-Frame :
    (c : Controller) (key : String × String) (events : List ℕ) → Frame c (keep_retries c key events)
unfolding keep_retries
keep_retries-Frame c key events = record {
  config = refl;
  by_model = refl;
  by_department = refl;
  incs = λ a b e. refl;
  decs = λ a b e. refl;
}

pub record_retry_event-Frame :
    (c : Controller) (now : ℕ) (d m : String) → Frame c (record_retry_event c now d m)
unfolding record_retry_event
record_retry_event-Frame c now d m =
    let events = recent_retries c (d, m) now in
    if_rule (Frame c) (not c.config.enabled || not c.config.retry_guard.enabled) c _
      (λ _. Frame-refl c)
      λ _.
        if_rule (Frame c) (ltb now (cooldown_of c (d, m))) c _ (λ _. Frame-refl c)
          λ _.
            if_rule (Frame c)
              (leb c.config.retry_guard.max_events (length events)
                && leb (cooldown_of c (d, m)) now)
              (open_retry_guard c now d m) (keep_retries c (d, m) events)
              (λ _. open_retry_guard-Frame c now d m) (λ _. keep_retries-Frame c (d, m) events)

-- `check_request_shape` leaves the controller as it is, or counts one rejection.
module _ {ℓ} (P : Controller → Type ℓ) (c : Controller) (d m e : String) (body_size : ℕ)
    (payload : Fields) where
  abbrev After : Outcome Controller Fields → Type ℓ
  After r = P r.1

  pub shape_rule :
      P c
      → ((reason : ShapeReason) → P (reject_shape c d m reason).1)
      → P (check_request_shape c d m e body_size payload).1
  unfolding check_request_shape
  shape_rule kept rejected =
      if_rule After (not c.config.enabled) _ _ (λ _. kept)
        λ _.
          option_rule After (get c.config.request_shape_limits m) _ _ (λ _. kept)
            λ limit _.
              let caps = extract_valid_max_output_tokens payload in
              if_rule After (body_too_large limit body_size) _ _
                (λ _. rejected request_body_too_large)
                λ _.
                  if_rule After (bad_output_cap limit caps.0 caps.1) _ _
                    (λ _. rejected max_output_tokens)
                    λ _.
                      if_rule After (bad_n limit payload) _ _ (λ _. rejected n_greater_than_one)
                        (λ _. kept)

pub check_request_shape-Frame :
    (c : Controller) (d m e : String) (body_size : ℕ) (payload : Fields)
    → Frame c (check_request_shape c d m e body_size payload).1
unfolding reject_shape
check_request_shape-Frame c d m e body_size payload =
    shape_rule (Frame c) c d m e body_size payload (Frame-refl c)
      (λ reason. record_rejection-Frame c d m (reason_label reason))
