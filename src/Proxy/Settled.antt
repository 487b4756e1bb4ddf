-- ===== src/Proxy/Settled.antt =====
-- A request leaves no trace in the counters of active requests once it is over.
use vllm_source_gateway.Base.{
  ℕ, ℤ, add_ℤ, String, refl, Option, none, some, Bool, true, false, not, ◌&&◌, arith, if_rule,
  option_rule, leb, ltb, string_eq,
}
use vllm_source_gateway.Json.{loads_rule}
use vllm_source_gateway.Http.{ok, raises, crashes, cancels, unfinished, and_then}
use vllm_source_gateway.Metrics.{GatewayMetrics}
use vllm_source_gateway.Usage.{UsageTokens, UsageExtractor}
use vllm_source_gateway.Admission.Controller.{Controller, AdmissionLease}
use vllm_source_gateway.Admission.Acquire.{release}
use vllm_source_gateway.Admission.Frames.{record_tokens-Frame}
use vllm_source_gateway.Proxy.State.{Gateway, World, Handled, UpstreamResponse, with_metrics}
use vllm_source_gateway.Proxy.Upstream.{record_accounting, record_usage, record_reported}
use vllm_source_gateway.Proxy.Failover.{Call, Answer}
use vllm_source_gateway.Proxy.Endpoint.{
  Plain, Reply, response, stream, contact, note_failure, charge, account, answer_unparsed,
  answer_json, finally_release, release_on_exception, proxy_streaming, proxy_json,
}
use vllm_source_gateway.Proxy.Balance.{
  SameActive, same_refl, same_trans, Frame-SameActive, Keeps, and_then-Keeps,
}
use vllm_source_gateway.Proxy.Stages.{
  IsQuiet, SameGauge, gauge-SameActive, contact-Keeps, note_failure-Keeps,
}

-- The accounting of a response.
pub record_accounting-gauge :
    (m : GatewayMetrics) (d o e status : String) → SameGauge m (record_accounting m d o e status)
unfolding record_accounting
record_accounting-gauge m d o e status a b f = (refl, refl)

record_reported-gauge :
    (m : GatewayMetrics) (d o e : String) (x y : ℤ) → SameGauge m (record_reported m d o e x y)
unfolding record_reported
record_reported-gauge m d o e x y a b f = ground arith

pub record_usage-gauge :
    (m : GatewayMetrics) (d o e : String) (code : ℕ) (usage : UsageTokens)
    → SameGauge m (record_usage m d o e code usage).1
unfolding record_usage
record_usage-gauge m d o e code usage =
    let P : UsageTokens × GatewayMetrics → Type 0 = λ r. SameGauge m r.1 in
    if_rule P (not (leb 200 code && ltb code 300)) _ _
      (λ _. record_accounting-gauge m d o e "missing_usage")
      (λ _.
        option_rule P usage _ _ (λ _. record_accounting-gauge m d o e "missing_usage")
          (λ tokens _. record_reported-gauge m d o e tokens.0 tokens.1))

module _ (w : World) (call : Call) where
  charge-Keeps :
      (usage : UsageTokens) (g : Gateway) → SameActive g.admission (charge w call usage g).admission
  unfolding charge
  charge-Keeps none g = same_refl g.admission
  charge-Keeps (some (x, y)) g =
      Frame-SameActive
        (record_tokens-Frame g.admission w.recorded_at call.department call.model_name (add_ℤ x y))

  account-Keeps :
      (code : ℕ) (usage : UsageTokens) (g : Gateway)
      → SameActive g.admission (account w call code usage g).admission
  unfolding account
  account-Keeps code usage g =
      let r =
        record_usage g.admission.metrics call.department call.model_name call.endpoint code usage in
      same_trans
        (gauge-SameActive g.admission (r.1) (
          record_usage-gauge g.admission.metrics call.department call.model_name call.endpoint code
            usage))
        (charge-Keeps (r.0) (with_metrics g (λ _. r.1)))

  answer_unparsed-Keeps : (r : UpstreamResponse) (g : Gateway) → Keeps g (answer_unparsed call r g)
  unfolding answer_unparsed
  answer_unparsed-Keeps r g = gauge-SameActive g.admission _ (
      record_accounting-gauge g.admission.metrics call.department call.model_name call.endpoint
        "parse_error")

  answer_json-Keeps :
      (extract : UsageExtractor) (a : Answer) (g : Gateway)
      → Keeps g (answer_json w call extract a g)
  unfolding answer_json
  answer_json-Keeps extract (r, attempted) g =
      let P : Handled Plain → Type 0 = Keeps g in
      let h = note_failure w call r.status_code g in
      let noted = note_failure-Keeps w call r.status_code g in
      let unparsed = same_trans noted (answer_unparsed-Keeps r h) in
      loads_rule P (w.json_loads r.content) _ _ _ _
        (λ payload _.
          option_rule P (extract payload) _ _ (λ _. noted)
            λ usage _. same_trans noted (account-Keeps r.status_code usage h))
        (λ _. unparsed) (λ _. unparsed) λ _. noted

-- The handler's task was cancelled: nothing is left, or, where the request asks for a stream, at most
-- one lease that was not given back.
abbrev pub Cancelled : Controller → (streams : Bool) → Controller → Type 0
Cancelled c false q = SameActive c q
Cancelled c true q = (lease : Option AdmissionLease) × SameActive c (release q lease)

pub Cancelled-same : (c q : Controller) (streams : Bool) → SameActive c q → Cancelled c streams q
unfolding release
Cancelled-same c q false same = same
Cancelled-same c q true same = (none, same)

Cancelled-trans :
    (c p q : Controller) (streams : Bool)
    → SameActive c p
    → Cancelled p streams q
    → Cancelled c streams q
Cancelled-trans c p q false same rest = same_trans same rest
Cancelled-trans c p q true same (lease, rest) = (lease, same_trans same rest)

-- The request is over, and counts for nothing; a stream counts for nothing once its lease is given
-- back, whatever keeps the active requests in between.
abbrev pub Settled : Controller → (streams : Bool) → Handled Reply → Type 0
Settled c b (ok (response r t), g) = SameActive c g.admission
Settled c b (ok (stream call r lease), g) =
    (q : Controller) → SameActive g.admission q → SameActive c (release q lease)
Settled c b (raises x, g) = SameActive c g.admission
Settled c b (crashes, g) = SameActive c g.admission
Settled c b (cancels, g) = Cancelled c b g.admission
Settled c b (unfinished, g) = SameActive c g.admission

abbrev pub Settles : Gateway → (streams : Bool) → Handled Reply → Type 0
Settles g b o = Settled g.admission b o

pub Settled-trans :
    (c p : Controller) (b : Bool) (o : Handled Reply)
    → SameActive c p
    → Settled p b o
    → Settled c b o
Settled-trans c p b (ok (response r t), g) same rest = same_trans same rest
Settled-trans c p b (ok (stream call r lease), g) same rest = λ q k. same_trans same (rest q k)
Settled-trans c p b (raises x, g) same rest = same_trans same rest
Settled-trans c p b (crashes, g) same rest = same_trans same rest
Settled-trans c p b (cancels, g) same rest = Cancelled-trans c p g.admission b same rest
Settled-trans c p b (unfinished, g) same rest = same_trans same rest

module _ (w : World) (quiet : IsQuiet w) (call : Call) (lease : Option AdmissionLease)
    (c : Controller) (g : Gateway)
    (leased : (q : Controller) → SameActive g.admission q → SameActive c (release q lease)) where
  finally-Settles :
      (b : Bool) (o : Handled Plain)
      → Keeps g o
      → Settled c b (and_then (finally_release lease o) λ p s. (ok (response (p.0) (p.1)), s))
  unfolding finally_release
  finally-Settles b (ok p, h) k = leased h.admission k
  finally-Settles b (raises x, h) k = leased h.admission k
  finally-Settles b (crashes, h) k = leased h.admission k
  finally-Settles b (cancels, h) k =
      Cancelled-same c (release h.admission lease) b (leased h.admission k)
  finally-Settles b (unfinished, h) k = leased h.admission k

  pub proxy_json-Settles :
      (b : Bool) (extract : UsageExtractor) → Settled c b (proxy_json w call extract lease g)
  unfolding proxy_json
  proxy_json-Settles b extract =
      finally-Settles b (and_then (contact w call g) (answer_json w call extract)) (
        and_then-Keeps g (contact w call g) (answer_json w call extract)
          (contact-Keeps w call quiet g) (answer_json-Keeps w call extract))

  streaming-Settles :
      (o : Handled Answer)
      → Keeps g o
      → Settled c true (
          release_on_exception lease (
            and_then o λ answer s.
              (ok (stream call (answer.0) lease), note_failure w call (answer.0).status_code s)))
  unfolding release_on_exception
  streaming-Settles (ok a, h) k = λ q same.
      leased q (same_trans (same_trans k (note_failure-Keeps w call (a.0).status_code h)) same)
  streaming-Settles (raises x, h) k = leased h.admission k
  streaming-Settles (crashes, h) k = leased h.admission k
  streaming-Settles (cancels, h) k = (lease, leased h.admission k)
  streaming-Settles (unfinished, h) k = leased h.admission k

  pub proxy_streaming-Settles : Settled c true (proxy_streaming w call lease g)
  unfolding proxy_streaming
  proxy_streaming-Settles = streaming-Settles (contact w call g) (contact-Keeps w call quiet g)
