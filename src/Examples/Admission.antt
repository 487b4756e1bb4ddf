-- ===== src/Examples/Admission.antt =====
-- Examples for `Admission`.
use vllm_source_gateway.Base.{
  ◌-◌, suc, ◌<◌, ℕ, string_eq, pair_eq, ◌≡◌, refl, ◌≤◌, ◌*◌, ◌+◌, List, [], ◌∷◌, true, some, arith,
  pos, leb, if◌then◌else◌, inr,
}
use vllm_source_gateway.Dict.{empty, get, put}
use vllm_source_gateway.Json.{Fields, end, field, int, get_field}
use vllm_source_gateway.Http.{HttpException, ok, raises}
use vllm_source_gateway.Admission.Config.{
  AdmissionControlConfig, TokenBudgetConfig, RequestShapeLimitConfig, ticks_per_second,
}
use vllm_source_gateway.Admission.Controller.{
  Controller, AdmissionLease, init, cooldown_of, token_budget, too_many_requests, retries_of,
  record_rejection,
}
use vllm_source_gateway.Admission.Shape.{check_request_shape, body_too_large, bad_n}
use vllm_source_gateway.Admission.Acquire.{acquire, model_full, department_full}
use vllm_source_gateway.Admission.Accounting.{record_retry_event}
use vllm_source_gateway.Admission.Leases.{lease_of}
use vllm_source_gateway.Admission.System.{
  System, acquires, Reach, here, next, IsSafe, start, Reach-start-IsSafe,
}
use vllm_source_gateway.Admission.Window.{window_sum}
use vllm_source_gateway.Admission.History.{Call, records_tokens, run, recorded}
use vllm_source_gateway.Admission.Quota.{acquire-window}
use vllm_source_gateway.Admission.Failures.{fail_all, fail_all-opens}
use vllm_source_gateway.Admission.Guard.{retry_after_too_early}
use vllm_source_gateway.Admission.OutputCap.{IsCapped}
use vllm_source_gateway.Admission.Caps.{
  IsSingle, check_request_shape-IsCapped, check_request_shape-IsSingle, foreign_cap_passes,
}

abbrev budget : TokenBudgetConfig
budget = record {
  department = "d";
  model_name = "m";
  max_tokens = 10;
  window_seconds = 60 * ticks_per_second;
}

abbrev limit : RequestShapeLimitConfig
limit = record {
  max_request_body_bytes = some 100;
  max_output_tokens = some 5;
  reject_n_greater_than_one = true;
}

abbrev config : AdmissionControlConfig
config = record {
  enabled = true;
  default_retry_after_seconds = 3;
  global_model_limits = put empty "m" (record { max_active_requests = 2 });
  department_model_limits = [];
  token_budgets = budget ∷ [];
  request_shape_limits = put empty "m" limit;
  retry_guard = record {
    enabled = true;
    window_seconds = 30 * ticks_per_second;
    max_events = 1;
    cooldown_seconds = 1_500_000;
  };
}

abbrev fresh : Controller
fresh = init config []

abbrev lease : AdmissionLease
lease = lease_of "d" "m" "chat"

abbrev one_active : System
one_active = record { controller = (acquire fresh 0 "d" "m" "chat").1; held = lease ∷ [] }

abbrev one_reached : Reach (start config) one_active
unfolding acquire init get empty model_full put department_full
    vllm_source_gateway.Admission.Controller.department_model_limit token_budget
    vllm_source_gateway.Admission.Controller.prune_tokens
one_reached = next here (acquires 0 "d" "m" "chat" (ok (some lease)) refl refl)

-- One request is admitted.
Reach-start-IsSafe_example : IsSafe config one_active.controller one_active.held
Reach-start-IsSafe_example = Reach-start-IsSafe config one_reached

-- Twelve tokens in the window, so the budget of ten is spent.
abbrev spent : List (ℕ × Call)
spent = (5, records_tokens "d" "m" (pos 7)) ∷ (9, records_tokens "d" "m" (pos 5)) ∷ []

acquire-window_example : (acquire (run (init config []) spent) 20 "d" "m" "chat").0 ≡ (
    if leb budget.max_tokens (window_sum 20 budget.window_seconds (recorded ("d", "m") spent))
    then raises (too_many_requests "token budget exceeded" config.default_retry_after_seconds)
    else ok (some (lease_of "d" "m" "chat")))
unfolding token_budget run model_full department_full get
    vllm_source_gateway.Admission.Accounting.record_tokens init
    vllm_source_gateway.Admission.Controller.prune_tokens empty put
    vllm_source_gateway.Admission.Controller.department_model_limit
acquire-window_example =
    acquire-window config "d" "m" "chat" budget spent 20 refl refl (omega arith, (omega arith, tt))
      (omega arith) (omega arith) refl refl

-- A failure opens the guard.
abbrev failed : Controller
failed = record_retry_event fresh 7 "d" "m"

-- A second and a half is left: the header says one second, after which the guard is still open.
retry_after_too_early_example :
    (x : HttpException) × (after : ℕ) × ((acquire failed 7 "d" "m" "chat").0 ≡ raises x)
    × (x.retry_after ≡ some after)
    × (after * ticks_per_second ≤ cooldown_of failed ("d", "m") - 7)
    × (cooldown_of failed ("d", "m") - 7 < suc after * ticks_per_second)
    × (y : HttpException) × ((acquire failed (7 + after * ticks_per_second) "d" "m" "chat").0
        ≡ raises y)
    × (y.detail ≡ "retry guard is open")
unfolding record_retry_event init get empty put
retry_after_too_early_example =
    retry_after_too_early failed 7 "d" "m" "chat" refl (omega arith) (omega arith)

abbrev no_cap : Fields
no_cap = field "n" (int (pos 1)) end

abbrev capped : Fields
capped = field "n" (int (pos 1)) (field "max_tokens" (int (pos 5)) end)

check_request_shape-IsCapped_example : IsCapped 5 capped
unfolding check_request_shape init get put empty
    vllm_source_gateway.Admission.Shape.extract_valid_max_output_tokens get_field
    vllm_source_gateway.Json.equals_one vllm_source_gateway.Json.set_field
check_request_shape-IsCapped_example =
    check_request_shape-IsCapped fresh "d" "m" "chat" 20 no_cap capped limit 4 refl refl refl refl

check_request_shape-IsSingle_example :
    IsSingle capped × ((most : ℕ) → limit.max_request_body_bytes ≡ some most → 20 ≤ most)
unfolding check_request_shape init get put empty
    vllm_source_gateway.Admission.Shape.extract_valid_max_output_tokens get_field
    vllm_source_gateway.Json.equals_one vllm_source_gateway.Json.set_field
check_request_shape-IsSingle_example =
    check_request_shape-IsSingle fresh "d" "m" "chat" 20 no_cap capped limit refl refl refl refl

-- A chat request that has the cap of the responses endpoint only.
abbrev foreign : Fields
foreign = field "max_output_tokens" (int (pos 2)) end

foreign_cap_passes_example : (check_request_shape fresh "d" "m" "chat" 20 foreign).0 ≡ ok foreign
unfolding body_too_large bad_n init get put empty get_field
    vllm_source_gateway.Admission.Shape.valid_cap
foreign_cap_passes_example =
    foreign_cap_passes fresh "d" "m" "chat" 20 foreign limit 5 2 (int (pos 2)) refl refl refl refl
      refl refl (omega arith) (inr (refl, refl))

-- The guard opens at the third failure in a window of thirty ticks; the first one is too old.
abbrev patient_config : AdmissionControlConfig
patient_config = record config {
  retry_guard = record {
    enabled = true;
    window_seconds = 30;
    max_events = 3;
    cooldown_seconds = 50;
  };
}

abbrev patient : Controller
patient = init patient_config []

fail_all-opens_example :
    cooldown_of (fail_all patient "d" "m" (1 ∷ 40 ∷ 55 ∷ 60 ∷ [])) ("d", "m") ≡ 60 + 50
unfolding init get empty
fail_all-opens_example =
    fail_all-opens patient "d" "m" 0 60 (1 ∷ 40 ∷ 55 ∷ []) refl refl refl (omega arith)
      (omega arith, (omega arith, (omega arith, (omega arith, tt)))) refl
