-- ===== src/Admission/Accounting.antt =====
-- `record_tokens` and `record_retry_event`: what the outcome of a request feeds back.
use vllm_source_gateway.Base.{
  ℕ, ℤ, pos, String, not, ◌&&◌, ◌||◌, List, [], ◌∷◌, ◌++◌, none, some, ltb, leb, leb_ℤ, to_nat,
  string_eq, pair_eq, length, ◌+◌, ◌-◌, if◌then◌else◌,
}
use vllm_source_gateway.Dict.{put}
use vllm_source_gateway.Metrics.{record_retry_guard_open}
use vllm_source_gateway.Admission.Controller.{
  Controller, events_of, total_of, retries_of, cooldown_of, token_budget, prune_tokens,
}

unfoldable pub append_tokens : Controller → String × String → (now tokens : ℕ) → Controller
append_tokens c key now tokens = record c {
  token_events = put c.token_events key (events_of c key ++ (now, tokens) ∷ []);
  token_totals = put c.token_totals key (total_of c key + tokens);
}

-- The tokens may come as any int; those that are counted are positive.
unfoldable pub record_tokens : Controller → ℕ → (department model_name : String) → ℤ → Controller
unfolding append_tokens
record_tokens c now department model_name tokens =
    let key : String × String = (department, model_name) in
    if not c.config.enabled || leb_ℤ tokens (pos 0)
    then c
    else elim (token_budget c.config department model_name) [
      | none ↦ c
      | some budget ↦
          append_tokens (prune_tokens c key now budget.window_seconds) key now (to_nat tokens)
    ]

-- while events and now - events[0] > window_seconds: events.popleft()
unfoldable pub drop_old_retries : List ℕ → (now window : ℕ) → List ℕ
drop_old_retries [] now window = []
drop_old_retries (at ∷ events) now window =
    if ltb window (now - at) then drop_old_retries events now window else at ∷ events

-- self._retry_events[key] after the old events are dropped and the new one is appended
unfoldable pub recent_retries : Controller → String × String → (now : ℕ) → List ℕ
unfolding drop_old_retries
recent_retries c key now =
    drop_old_retries (retries_of c key) now c.config.retry_guard.window_seconds ++ now ∷ []

unfoldable pub open_retry_guard : Controller → ℕ → (department model_name : String) → Controller
unfolding record_retry_guard_open
open_retry_guard c now department model_name =
    let key : String × String = (department, model_name) in
    record c {
      cooldown_until = put c.cooldown_until key (now + c.config.retry_guard.cooldown_seconds);
      retry_events = put c.retry_events key [];
      metrics = record_retry_guard_open c.metrics department model_name;
    }

unfoldable pub keep_retries : Controller → String × String → List ℕ → Controller
keep_retries c key events = record c { retry_events = put c.retry_events key events }

unfoldable pub record_retry_event_locked :
    Controller → ℕ → (department model_name : String) → Controller
unfolding recent_retries open_retry_guard keep_retries
record_retry_event_locked c now department model_name =
    let key : String × String = (department, model_name) in
    let events = recent_retries c key now in
    if ltb now (cooldown_of c key)
    then c
    else if leb c.config.retry_guard.max_events (length events) && leb (cooldown_of c key) now
    then open_retry_guard c now department model_name
    else keep_retries c key events

unfoldable pub record_retry_event : Controller → ℕ → (department model_name : String) → Controller
unfolding record_retry_event_locked
record_retry_event c now department model_name =
    if not c.config.enabled || not c.config.retry_guard.enabled
    then c
    else record_retry_event_locked c now department model_name
