-- ===== src/Proxy/Stages.antt =====
-- Each stage of a request between its admission and its end keeps the active requests.
use vllm_source_gateway.Base.{
  ℕ, zero, suc, String, ◌≡◌, refl, arith, if_rule, List, [], ◌∷◌, length, leb, string_eq,
}
use vllm_source_gateway.Dict.{get_or}
use vllm_source_gateway.Http.{ok, raises, crashes, cancels, unfinished}
use vllm_source_gateway.Metrics.{GatewayMetrics}
use vllm_source_gateway.Metrics.Inflight.{inflight_incs, inflight_decs}
use vllm_source_gateway.Models.{UpstreamTarget}
use vllm_source_gateway.Admission.Controller.{Controller}
use vllm_source_gateway.Admission.Accounting.{record_retry_event}
use vllm_source_gateway.Admission.Frames.{record_retry_event-Frame}
use vllm_source_gateway.Routing.Registry.{
  RoutingRegistry, RoutingError, unknown_model, unknown_upstream, no_healthy_upstream, crash, done,
  fails,
}
use vllm_source_gateway.Routing.Select.{Selected}
use vllm_source_gateway.Routing.Select as Registry
use vllm_source_gateway.Proxy.State.{
  Gateway, World, Handled, TransportError, Exchange, answered, broken, call_failed, call_cancelled,
  with_admission, await,
}
use vllm_source_gateway.Proxy.Body.{raise_accounted, raise_routing_error}
use vllm_source_gateway.Proxy.Upstream.{
  select_upstream, after_selection, raise_upstream_transport_error, is_timeout,
  is_connect_stage_retryable_error,
}
use vllm_source_gateway.Proxy.Failover.{
  Call, Answer, attempt, after_exchange, give_up, observe_answer, exchange,
}
use vllm_source_gateway.Proxy.Endpoint.{contact, note_failure}
use vllm_source_gateway.Proxy.Balance.{
  SameActive, same_refl, same_trans, Frame-SameActive, Keeps, and_then-Keeps,
}

-- What other tasks do at an await leaves, in sum, the active requests as they were: requests that
-- start while this one waits are over when it goes on.
abbrev pub IsQuiet : World → Type 0
IsQuiet w = (n : ℕ) (r : RoutingRegistry) (c : Controller) → SameActive c (w.meanwhile n (r, c)).1

-- Samples that are not of the gauge.
abbrev pub SameGauge : GatewayMetrics → GatewayMetrics → Type 0
SameGauge m n =
    (d o e : String)
    → (inflight_incs d o e n ≡ inflight_incs d o e m)
      × (inflight_decs d o e n ≡ inflight_decs d o e m)

pub gauge-SameActive :
    (c : Controller) (m : GatewayMetrics)
    → SameGauge c.metrics m
    → SameActive c (record c { metrics = m })
gauge-SameActive c m same = record {
  by_model = λ n. refl;
  by_key = λ k. refl;
  gauge = λ d n e. omega (arith, (same d n e).0, (same d n e).1);
}

pub await-Keeps :
    (w : World) (n : ℕ) (g : Gateway) → IsQuiet w → SameActive g.admission (await w n g).admission
unfolding await
await-Keeps w n g quiet = quiet n g.routing g.admission

raise_accounted-Keeps :
    (A : Type 0) (g : Gateway) (endpoint : String) (code : ℕ) (detail status : String)
    → Keeps {A = A} g (raise_accounted {A = A} g endpoint code detail status)
unfolding raise_accounted
raise_accounted-Keeps A g endpoint code detail status =
    gauge-SameActive g.admission _ λ d o e. (refl, refl)

pub raise_routing_error-Keeps :
    (A : Type 0) (g : Gateway) (error : RoutingError)
    → Keeps {A = A} g (raise_routing_error {A = A} g error)
unfolding raise_routing_error
raise_routing_error-Keeps A g (unknown_model m) = same_refl g.admission
raise_routing_error-Keeps A g (unknown_upstream m) = same_refl g.admission
raise_routing_error-Keeps A g (no_healthy_upstream m) = same_refl g.admission
raise_routing_error-Keeps A g crash = same_refl g.admission

after_selection-Keeps : (g : Gateway) (m : String) (s : Selected) → Keeps g (after_selection g m s)
unfolding after_selection
after_selection-Keeps g m (fails error, routing) = raise_routing_error-Keeps UpstreamTarget _ error
after_selection-Keeps g m (done selected, routing) =
    gauge-SameActive g.admission _ λ d o e. (refl, refl)

pub select_upstream-Keeps :
    (g : Gateway) (m : String) (excluded : List String) → Keeps g (select_upstream g m excluded)
unfolding select_upstream
select_upstream-Keeps g m excluded =
    after_selection-Keeps g m (Registry.select_upstream g.routing m excluded)

module _ (w : World) (call : Call) where
  transport-Keeps :
      (A : Type 0) (g : Gateway) (exc : TransportError)
      → Keeps {A = A} g (
          raise_upstream_transport_error {A = A} w g call.department call.model_name call.endpoint
            exc)
  unfolding raise_upstream_transport_error
  transport-Keeps A g exc =
      let c = record_retry_event g.admission w.retried_at call.department call.model_name in
      let retried =
        Frame-SameActive
          (record_retry_event-Frame g.admission w.retried_at call.department call.model_name) in
      let P : Handled A → Type 0 = Keeps g in
      if_rule P (is_timeout exc) _ _
        (λ _. same_trans retried (
          raise_accounted-Keeps A (with_admission g c) call.endpoint 504
            "upstream request timed out" "missing_usage"))
        (λ _. same_trans retried (
          raise_accounted-Keeps A (with_admission g c) call.endpoint 502 "upstream request failed"
            "missing_usage"))

  give_up-Keeps :
      (g : Gateway) (exc : TransportError) (s : Handled UpstreamTarget)
      → Keeps g s
      → Keeps g (give_up w call exc s)
  unfolding give_up
  give_up-Keeps g exc (ok u, h) k = k
  give_up-Keeps g exc (raises x, h) k = same_trans k (transport-Keeps UpstreamTarget h exc)
  give_up-Keeps g exc (crashes, h) k = k
  give_up-Keeps g exc (cancels, h) k = k
  give_up-Keeps g exc (unfinished, h) k = k

  observe_answer-Keeps :
      (u : UpstreamTarget) (duration : ℕ) (g : Gateway)
      → SameActive g.admission (observe_answer call u duration g).admission
  unfolding observe_answer
  observe_answer-Keeps u duration g =
      if_rule (λ (h : Gateway). SameActive g.admission h.admission) call.observes_duration _ _
        (λ _. gauge-SameActive g.admission _ λ d o e. (refl, refl)) (λ _. same_refl g.admission)

  module _ (quiet : IsQuiet w) where
    after_exchange-Keeps :
        (attempted : List String) (u : UpstreamTarget) (g : Gateway)
        (retry : UpstreamTarget → Gateway → Handled Answer) (e : Exchange)
        → ((next : UpstreamTarget) (s : Gateway) → Keeps s (retry next s))
        → Keeps g (after_exchange w call attempted u g retry e)
    unfolding after_exchange
    after_exchange-Keeps attempted u g retry (answered response duration) again =
        observe_answer-Keeps u duration g
    after_exchange-Keeps attempted u g retry (broken exc) again =
        let P : Handled Answer → Type 0 = Keeps g in
        let selected = give_up w call exc (select_upstream g call.model_name attempted) in
        if_rule P (is_connect_stage_retryable_error exc) _ _
          (λ _.
            and_then-Keeps g selected retry
              (give_up-Keeps g exc (select_upstream g call.model_name attempted)
                (select_upstream-Keeps g call.model_name attempted))
              again)
          (λ _. transport-Keeps Answer g exc)
    after_exchange-Keeps attempted u g retry call_failed again = same_refl g.admission
    after_exchange-Keeps attempted u g retry call_cancelled again = same_refl g.admission

    attempt-Keeps :
        (fuel n : ℕ) (attempted : List String) (u : UpstreamTarget) (g : Gateway)
        → Keeps g (attempt w call fuel n attempted u g)
    unfolding attempt
    attempt-Keeps zero n attempted u g = same_refl g.admission
    attempt-Keeps (suc fuel) n attempted u g = same_trans (await-Keeps w (suc n) g quiet) (
        after_exchange-Keeps attempted u (await w (suc n) g) _ (exchange w call n u)
          λ next s. attempt-Keeps fuel (suc n) (next.name ∷ attempted) next s)

    pub contact-Keeps : (g : Gateway) → Keeps g (contact w call g)
    unfolding contact
    contact-Keeps g =
        let fuel = length (get_or g.routing.model_to_upstreams call.model_name []) in
        and_then-Keeps g (select_upstream g call.model_name [])
          (λ u s. attempt w call fuel zero (u.name ∷ []) u s)
          (select_upstream-Keeps g call.model_name [])
          λ u s. attempt-Keeps fuel zero (u.name ∷ []) u s

  pub note_failure-Keeps :
      (code : ℕ) (g : Gateway) → SameActive g.admission (note_failure w call code g).admission
  unfolding note_failure
  note_failure-Keeps code g =
      let P : Gateway → Type 0 = λ h. SameActive g.admission h.admission in
      if_rule P (leb 500 code) _ _
        (λ _.
          if_rule
            (λ (h : Gateway). P (
              with_admission h
                (record_retry_event h.admission w.retried_at call.department call.model_name)))
            (leb 400 code) _ _
            (λ _. Frame-SameActive (record_retry_event-Frame g.admission w.retried_at _ _))
            (λ _. Frame-SameActive (record_retry_event-Frame g.admission w.retried_at _ _)))
        (λ _.
          if_rule P (leb 400 code) _ _ (λ _. same_refl g.admission) (λ _. same_refl g.admission))
