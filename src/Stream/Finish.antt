-- ===== src/Stream/Finish.antt =====
-- The `finally` of `_stream_bytes`, and the whole life of the generator.
use vllm_source_gateway.Base.{
  ℕ, suc, String, List, [], Bool, true, false, not, Option, none, some, add_ℤ, if◌then◌else◌,
}
use vllm_source_gateway.Usage.{UsageTokens}
use vllm_source_gateway.RequestMetrics.{
  set_request_metrics_status_override, set_request_metrics_failure_origin,
}
use vllm_source_gateway.Admission.Controller.{AdmissionLease}
use vllm_source_gateway.Admission.Acquire.{release}
use vllm_source_gateway.Admission.Accounting.{record_tokens}
use vllm_source_gateway.Proxy.State.{
  Gateway, World, with_metrics, with_request, with_admission, await,
}
use vllm_source_gateway.Proxy.Upstream.{record_accounting, record_usage}
use vllm_source_gateway.Stream.State.{
  StreamCall, StreamState, started, Feed, Exit, finished, exited, raised,
}
use vllm_source_gateway.Stream.Pump.{Pumped, pump}

-- `_record_token_accounting` for the call.
unfoldable pub note_accounting : StreamCall → (accounting_status : String) → Gateway → Gateway
unfolding with_metrics record_accounting
note_accounting call accounting_status g =
    with_metrics g
      (λ m. record_accounting m call.department call.model_name call.endpoint accounting_status)

-- The status and the origin of a stream that was cut off, and its accounting.
unfoldable pub note_cut_off : StreamCall → (status_code : ℕ) → Gateway → Gateway
unfolding note_accounting with_request set_request_metrics_status_override
    set_request_metrics_failure_origin
note_cut_off call status_code g = note_accounting call "missing_usage" (
    with_request g (λ r.
      set_request_metrics_failure_origin (set_request_metrics_status_override r status_code)
        "gateway"))

-- if recorded_usage is not None: admission_controller.record_tokens(...)
unfoldable pub charge_usage : World → StreamCall → UsageTokens → Gateway → Gateway
unfolding record_tokens with_admission
charge_usage w call none g = g
charge_usage w call (some (prompt_tokens, generation_tokens)) g = with_admission g (
    record_tokens g.admission w.recorded_at call.department call.model_name
      (add_ℤ prompt_tokens generation_tokens))

unfoldable pub note_usage : World → StreamCall → UsageTokens → Gateway → Gateway
unfolding record_usage with_metrics charge_usage
note_usage w call latest_usage g =
    let (recorded, m) =
      record_usage g.admission.metrics call.department call.model_name call.endpoint
        call.status_code latest_usage in
    charge_usage w call recorded (with_metrics g (λ _. m))

-- The statements after the release, with the `return` of each.
unfoldable pub settle_accounts : World → StreamCall → StreamState → Gateway → Gateway
unfolding note_cut_off note_accounting note_usage
settle_accounts w call s g =
    if s.client_disconnected
    then note_cut_off call 499 g
    else if s.stream_failed
    then note_cut_off call 502 g
    else elim s.accounting_status_override [
      | some accounting_status ↦ note_accounting call accounting_status g
      | none ↦ note_usage w call s.latest_usage g
    ]

-- Whether the `finally` comes to its end without a `return`.
unfoldable pub falls_through : StreamState → Bool
falls_through s = elim s.accounting_status_override [
  | some accounting_status ↦ false
  | none ↦ if s.client_disconnected then false else not s.stream_failed
]

abbrev pub is_raised : Exit → Bool
is_raised finished = false
is_raised exited = false
is_raised raised = true

-- After the generator: what it yielded, and whether the exception that left the `try` goes on to its
-- caller. A `return` in the `finally` ends an exception.
pub record Streamed : Type 0 where
  pub sent : List (List ℕ)
  pub propagates : Bool
  pub gateway : Gateway

-- `closes` says whether `await upstream_response.aclose()` returns; an exception there, such as a
-- cancellation, leaves the `finally` at its first statement.
unfoldable pub finish :
    World → StreamCall → Option AdmissionLease → (n : ℕ) → (closes : Bool) → Pumped → Streamed
unfolding settle_accounts falls_through release with_admission await
finish w call lease n closes p =
    let h = await w n p.gateway in
    if closes
    then record {
      sent = p.sent;
      propagates = if is_raised p.exit then falls_through p.state else false;
      gateway = settle_accounts w call p.state (with_admission h (release h.admission lease));
    }
    else record { sent = p.sent; propagates = true; gateway = h }

-- The generator from its first line on; `n` numbers the await of `aclose`, the next ones the rounds.
unfoldable pub run_stream :
    World
    → StreamCall
    → Option AdmissionLease
    → (n : ℕ) → (closes : Bool) → Gateway
    → Feed
    → Streamed
unfolding finish pump started
run_stream w call lease n closes g feed =
    finish w call lease n closes (pump w call (suc n) started g feed)

-- What the server does with the response: it may close it before the first chunk is asked for. A
-- generator that was not started runs no line, also not its `finally`.
pub data Consumption : Type 0 where
  never_started : Consumption
  consumed : (closes : Bool) → Feed → Consumption

unfoldable pub stream_bytes :
    World → StreamCall → Option AdmissionLease → (n : ℕ) → Gateway → Consumption → Streamed
unfolding run_stream
stream_bytes w call lease n g never_started = record { sent = []; propagates = false; gateway = g }
stream_bytes w call lease n g (consumed closes feed) = run_stream w call lease n closes g feed
