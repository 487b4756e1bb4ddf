-- ===== src/Stream/Settled.antt =====
-- A stream, from its first chunk to its end, leaves no trace in the counters of active requests.
use vllm_source_gateway.Base.{
  ℕ, suc, add_ℤ, String, refl, List, true, false, Option, none, some, if_rule, option_rule,
}
use vllm_source_gateway.Usage.{UsageTokens}
use vllm_source_gateway.Admission.Controller.{Controller, AdmissionLease}
use vllm_source_gateway.Admission.Acquire.{release}
use vllm_source_gateway.Admission.Frames.{record_tokens-Frame}
use vllm_source_gateway.Proxy.State.{
  Gateway, World, with_metrics, with_request, with_admission, await,
}
use vllm_source_gateway.Proxy.Upstream.{record_usage}
use vllm_source_gateway.Proxy.Balance.{SameActive, same_refl, same_trans, Frame-SameActive}
use vllm_source_gateway.Proxy.Stages.{IsQuiet, gauge-SameActive, await-Keeps}
use vllm_source_gateway.Proxy.Settled.{record_accounting-gauge, record_usage-gauge}
use vllm_source_gateway.RequestMetrics.{
  set_request_metrics_status_override, set_request_metrics_failure_origin,
}
use vllm_source_gateway.Stream.Rule.{pump_rule}
use vllm_source_gateway.Stream.State.{StreamCall, StreamState, started, Feed}
use vllm_source_gateway.Stream.Pump.{is_first, note_first, pump}
use vllm_source_gateway.Stream.Finish.{
  note_accounting, note_cut_off, charge_usage, note_usage, settle_accounts, finish, run_stream,
}

abbrev KeepsActive : Gateway → Gateway → Type 0
KeepsActive g h = SameActive g.admission h.admission

module _ (w : World) (call : StreamCall) where
  note_accounting-Keeps :
      (status : String) (g : Gateway) → KeepsActive g (note_accounting call status g)
  unfolding note_accounting with_metrics
  note_accounting-Keeps status g = gauge-SameActive g.admission _ (
      record_accounting-gauge g.admission.metrics call.department call.model_name call.endpoint
        status)

  note_cut_off-Keeps : (code : ℕ) (g : Gateway) → KeepsActive g (note_cut_off call code g)
  unfolding note_cut_off with_request
  note_cut_off-Keeps code g = note_accounting-Keeps "missing_usage" (
      with_request g λ r.
        set_request_metrics_failure_origin (set_request_metrics_status_override r code) "gateway")

  charge_usage-Keeps :
      (usage : UsageTokens) (g : Gateway) → KeepsActive g (charge_usage w call usage g)
  unfolding charge_usage with_admission
  charge_usage-Keeps none g = same_refl g.admission
  charge_usage-Keeps (some (x, y)) g =
      Frame-SameActive
        (record_tokens-Frame g.admission w.recorded_at call.department call.model_name (add_ℤ x y))

  note_usage-Keeps : (usage : UsageTokens) (g : Gateway) → KeepsActive g (note_usage w call usage g)
  unfolding note_usage with_metrics
  note_usage-Keeps usage g =
      let r =
        record_usage g.admission.metrics call.department call.model_name call.endpoint
          call.status_code usage in
      same_trans
        (gauge-SameActive g.admission (r.1) (
          record_usage-gauge g.admission.metrics call.department call.model_name call.endpoint
            call.status_code usage))
        (charge_usage-Keeps (r.0) (with_metrics g (λ _. r.1)))

  settle_accounts-Keeps :
      (s : StreamState) (g : Gateway) → KeepsActive g (settle_accounts w call s g)
  unfolding settle_accounts
  settle_accounts-Keeps s g =
      let P : Gateway → Type 0 = KeepsActive g in
      if_rule P s.client_disconnected _ _ (λ _. note_cut_off-Keeps 499 g)
        λ _.
          if_rule P s.stream_failed _ _ (λ _. note_cut_off-Keeps 502 g)
            λ _.
              option_rule P s.accounting_status_override _ _
                (λ _. note_usage-Keeps s.latest_usage g) λ status _. note_accounting-Keeps status g

  note_first-Keeps :
      (s : StreamState) (bytes : List ℕ) (elapsed : ℕ) (g : Gateway)
      → KeepsActive g (note_first call s bytes elapsed g)
  unfolding note_first with_metrics
  note_first-Keeps s bytes elapsed g =
      if_rule (KeepsActive g) (is_first s bytes) _ _
        (λ _. gauge-SameActive g.admission _ λ d o e. (refl, refl)) λ _. same_refl g.admission

  module _ (quiet : IsQuiet w) where
    pump-Keeps :
        (n : ℕ) (s : StreamState) (g : Gateway) (feed : Feed)
        → KeepsActive g (pump w call n s g feed).gateway
    pump-Keeps =
        pump_rule w call KeepsActive (λ g. same_refl g.admission) (λ g h k. same_trans)
          (λ n g. await-Keeps w n g quiet) note_first-Keeps

    -- Where `aclose` raises, nothing is given back.
    pub run_stream-unclosed :
        (lease : Option AdmissionLease) (n : ℕ) (g : Gateway) (feed : Feed)
        → KeepsActive g (run_stream w call lease n false g feed).gateway
    unfolding run_stream finish
    run_stream-unclosed lease n g feed =
        same_trans (pump-Keeps (suc n) started g feed)
          (await-Keeps w n (pump w call (suc n) started g feed).gateway quiet)

    pub run_stream-Keeps :
        (lease : Option AdmissionLease) (n : ℕ) (g : Gateway) (feed : Feed) (c : Controller)
        → ((q : Controller) → SameActive g.admission q → SameActive c (release q lease))
        → SameActive c (run_stream w call lease n true g feed).gateway.admission
    unfolding run_stream finish with_admission
    run_stream-Keeps lease n g feed c leased =
        let p = pump w call (suc n) started g feed in
        let h = await w n p.gateway in
        same_trans
          (leased h.admission
            (same_trans (pump-Keeps (suc n) started g feed) (await-Keeps w n p.gateway quiet)))
          (settle_accounts-Keeps p.state (with_admission h (release h.admission lease)))
