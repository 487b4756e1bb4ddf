-- ===== src/Stream/Accounted.antt =====
-- What a stream accounts at its end.
use vllm_source_gateway.Base.{
  ℕ, suc, String, ◌≡◌, refl, ◌∙◌, List, Bool, true, false, Option, none, some, not, ◌&&◌, ◌||◌, leb,
  ltb, leb_ℤ, pos, add_ℤ, if_rule, option_rule, count_by, ℤ, ap, arith,
}
use vllm_source_gateway.Metrics.{Sample, GatewayMetrics, token_accounting_total}
use vllm_source_gateway.Usage.{UsageTokens}
use vllm_source_gateway.Admission.Controller.{
  Controller, AdmissionLease, token_budget, prune_tokens,
}
use vllm_source_gateway.Admission.Acquire.{release}
use vllm_source_gateway.Admission.Accounting.{record_tokens, append_tokens}
use vllm_source_gateway.Routing.Registry.{RoutingRegistry}
use vllm_source_gateway.Proxy.State.{
  Gateway, World, with_metrics, with_request, with_admission, await,
}
use vllm_source_gateway.Proxy.Upstream.{record_accounting, record_usage, record_reported}
use vllm_source_gateway.Stream.State.{StreamCall, StreamState, started, Feed}
use vllm_source_gateway.Stream.Pump.{is_first, note_first, pump}
use vllm_source_gateway.Stream.Finish.{
  note_accounting, note_cut_off, charge_usage, note_usage, settle_accounts, finish, run_stream,
}
use vllm_source_gateway.Stream.Rule.{pump_rule}

abbrev pub is_accounting : Sample → Bool
is_accounting (token_accounting_total endpoint status) = true
is_accounting _ = false

-- The streams and responses that were accounted for.
abbrev pub accountings : Controller → ℕ
accountings c = count_by is_accounting c.metrics

-- Other tasks account for nothing at an await.
abbrev pub IsSilent : World → Type 0
IsSilent w =
    (n : ℕ) (r : RoutingRegistry) (c : Controller)
    → accountings (w.meanwhile n (r, c)).1 ≡ accountings c

abbrev SameCount : Gateway → Gateway → Type 0
SameCount g h = accountings h.admission ≡ accountings g.admission

abbrev OneMore : Gateway → Gateway → Type 0
OneMore g h = accountings h.admission ≡ suc (accountings g.admission)

record_accounting-counts :
    (m : GatewayMetrics) (d o e status : String)
    → count_by is_accounting (record_accounting m d o e status) ≡ suc (count_by is_accounting m)
unfolding record_accounting
record_accounting-counts m d o e status = ground arith

record_reported-counts :
    (m : GatewayMetrics) (d o e : String) (x y : ℤ)
    → count_by is_accounting (record_reported m d o e x y) ≡ suc (count_by is_accounting m)
unfolding record_reported
record_reported-counts m d o e x y = ground arith

record_usage-counts :
    (m : GatewayMetrics) (d o e : String) (code : ℕ) (usage : UsageTokens)
    → count_by is_accounting (record_usage m d o e code usage).1 ≡ suc (count_by is_accounting m)
unfolding record_usage
record_usage-counts m d o e code usage =
    let P : UsageTokens × GatewayMetrics → Type 0 =
      λ r. count_by is_accounting r.1 ≡ suc (count_by is_accounting m) in
    if_rule P (not (leb 200 code && ltb code 300)) _ _
      (λ _. record_accounting-counts m d o e "missing_usage")
      (λ _.
        option_rule P usage _ _ (λ _. record_accounting-counts m d o e "missing_usage")
          (λ tokens _. record_reported-counts m d o e tokens.0 tokens.1))

release-accountings :
    (c : Controller) (lease : Option AdmissionLease) → accountings (release c lease) ≡ accountings c
unfolding release
release-accountings c none = refl
release-accountings c (some lease) = ground arith

record_tokens-accountings :
    (c : Controller) (now : ℕ) (d m : String) (tokens : ℤ)
    → accountings (record_tokens c now d m tokens) ≡ accountings c
unfolding record_tokens append_tokens prune_tokens
record_tokens-accountings c now d m tokens =
    let P : Controller → Type 0 = λ q. accountings q ≡ accountings c in
    if_rule P (not c.config.enabled || leb_ℤ tokens (pos 0)) _ _ (λ _. refl)
      λ _. option_rule P (token_budget c.config d m) _ _ (λ _. refl) λ budget _. refl

module _ (w : World) (call : StreamCall) where
  note_accounting-OneMore :
      (status : String) (g : Gateway) → OneMore g (note_accounting call status g)
  unfolding note_accounting with_metrics
  note_accounting-OneMore status g =
      record_accounting-counts g.admission.metrics call.department call.model_name call.endpoint
        status

  note_cut_off-OneMore : (code : ℕ) (g : Gateway) → OneMore g (note_cut_off call code g)
  unfolding note_cut_off with_request note_accounting with_metrics
  note_cut_off-OneMore code g =
      record_accounting-counts g.admission.metrics call.department call.model_name call.endpoint
        "missing_usage"

  charge_usage-SameCount :
      (usage : UsageTokens) (g : Gateway) → SameCount g (charge_usage w call usage g)
  unfolding charge_usage with_admission
  charge_usage-SameCount none g = refl
  charge_usage-SameCount (some (x, y)) g =
      record_tokens-accountings g.admission w.recorded_at call.department call.model_name
        (add_ℤ x y)

  note_usage-OneMore : (usage : UsageTokens) (g : Gateway) → OneMore g (note_usage w call usage g)
  unfolding note_usage with_metrics
  note_usage-OneMore usage g =
      let r =
        record_usage g.admission.metrics call.department call.model_name call.endpoint
          call.status_code usage in
      charge_usage-SameCount (r.0) (with_metrics g (λ _. r.1))
      ∙ record_usage-counts g.admission.metrics call.department call.model_name call.endpoint
          call.status_code usage

  settle_accounts-OneMore : (s : StreamState) (g : Gateway) → OneMore g (settle_accounts w call s g)
  unfolding settle_accounts
  settle_accounts-OneMore s g =
      let P : Gateway → Type 0 = OneMore g in
      if_rule P s.client_disconnected _ _ (λ _. note_cut_off-OneMore 499 g)
        λ _.
          if_rule P s.stream_failed _ _ (λ _. note_cut_off-OneMore 502 g)
            λ _.
              option_rule P s.accounting_status_override _ _
                (λ _. note_usage-OneMore s.latest_usage g)
                λ status _. note_accounting-OneMore status g

  note_first-SameCount :
      (s : StreamState) (bytes : List ℕ) (elapsed : ℕ) (g : Gateway)
      → SameCount g (note_first call s bytes elapsed g)
  unfolding note_first with_metrics
  note_first-SameCount s bytes elapsed g =
      if_rule (SameCount g) (is_first s bytes) _ _ (λ _. ground arith) λ _. refl

-- Where other tasks account for nothing meanwhile, a stream that was started and whose `aclose`
-- returns adds exactly one sample to the accounting of tokens, whatever the upstream sends, whatever
-- its events hold, and however the stream ends.
pub run_stream-accountings :
    (w : World) (call : StreamCall) (lease : Option AdmissionLease) (n : ℕ) (g : Gateway)
    (feed : Feed)
    → IsSilent w
    → accountings (run_stream w call lease n true g feed).gateway.admission
      ≡ suc (accountings g.admission)
unfolding run_stream finish with_admission await
run_stream-accountings w call lease n g feed silent =
    let p = pump w call (suc n) started g feed in
    let h = await w n p.gateway in
    let pumped =
      pump_rule w call SameCount (λ g. refl) (λ g h k s t. t ∙ s)
        (λ n g. silent n g.routing g.admission) (note_first-SameCount w call) (suc n) started g
        feed in
    settle_accounts-OneMore w call p.state (with_admission h (release h.admission lease))
    ∙ ap suc (
        release-accountings h.admission lease
        ∙ silent n p.gateway.routing p.gateway.admission
        ∙ pumped)
