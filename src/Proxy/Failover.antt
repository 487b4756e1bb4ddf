-- ===== src/Proxy/Failover.antt =====
-- The attempts of a request: the loop over upstreams that ends with an answer or an exception.
use Prim.Native.String.{◌++◌ as append}
use vllm_source_gateway.Base.{ℕ, zero, suc, String, List, ◌∷◌, Bool, if◌then◌else◌}
use vllm_source_gateway.Json.{Fields}
use vllm_source_gateway.Http.{ok, raises, crashes, cancels, unfinished, and_then}
use vllm_source_gateway.Metrics.{observe_upstream_request_duration}
use vllm_source_gateway.Models.{UpstreamTarget}
use vllm_source_gateway.Proxy.State.{
  Gateway, World, Request, Handled, Exchange, answered, broken, call_failed, call_cancelled,
  UpstreamResponse, TransportError, await, with_metrics,
}
use vllm_source_gateway.Proxy.Headers.{build_upstream_headers}
use vllm_source_gateway.Proxy.Upstream.{
  select_upstream, raise_upstream_transport_error, is_connect_stage_retryable_error,
}

-- What stays the same over the attempts of one request.
pub record Call : Type 0 where
  pub request : Request
  pub department : String
  pub model_name : String
  pub endpoint : String
  pub upstream_path : String
  pub payload : Fields
  -- The streaming client's attempts are not observed in `upstream_request_duration_seconds`.
  pub observes_duration : Bool

-- The answer, and the names of the upstreams that were tried, the latest first.
abbrev pub Answer : Type 0
Answer = UpstreamResponse × List String

unfoldable pub exchange : World → Call → ℕ → UpstreamTarget → Exchange
unfolding build_upstream_headers
exchange w call number u =
    w.send number (append u.base_url call.upstream_path)
      (build_upstream_headers call.request.headers u.authorization_token) call.payload

-- What follows an answer.
unfoldable pub observe_answer : Call → UpstreamTarget → (duration : ℕ) → Gateway → Gateway
unfolding observe_upstream_request_duration with_metrics
observe_answer call u duration g =
    if call.observes_duration
    then with_metrics g
        (λ m. observe_upstream_request_duration m call.model_name u.name call.endpoint duration)
    else g

-- The `except` around the selection of another upstream: its HTTPException gives way to the error of
-- the attempt.
unfoldable pub give_up :
    World → Call → TransportError → Handled UpstreamTarget → Handled UpstreamTarget
unfolding raise_upstream_transport_error
give_up w call exc (ok u, g) = (ok u, g)
give_up w call exc (raises x, g) =
    raise_upstream_transport_error w g call.department call.model_name call.endpoint exc
give_up w call exc (crashes, g) = (crashes, g)
give_up w call exc (cancels, g) = (cancels, g)
give_up w call exc (unfinished, g) = (unfinished, g)

-- One round of the loop, after the answer or the exception of the attempt on `u`; `retry` is the
-- next round.
unfoldable pub after_exchange :
    World
    → Call
    → (attempted : List String) → UpstreamTarget
    → Gateway
    → (retry : UpstreamTarget → Gateway → Handled Answer) → Exchange
    → Handled Answer
unfolding observe_answer give_up select_upstream raise_upstream_transport_error
after_exchange w call attempted u g retry (answered response duration) =
    (ok (response, attempted), observe_answer call u duration g)
after_exchange w call attempted u g retry (broken exc) =
    if is_connect_stage_retryable_error exc
    then and_then (give_up w call exc (select_upstream g call.model_name attempted)) retry
    else raise_upstream_transport_error w g call.department call.model_name call.endpoint exc
after_exchange w call attempted u g retry call_failed = (crashes, g)
after_exchange w call attempted u g retry call_cancelled = (cancels, g)

-- The loop `while True`, before the attempt of this number on `u`; `attempted` are the names tried
-- so far, that of `u` among them.
unfoldable pub attempt :
    World
    → Call
    → (fuel number : ℕ) (attempted : List String) → UpstreamTarget
    → Gateway
    → Handled Answer
unfolding exchange after_exchange await
attempt w call zero number attempted u g = (unfinished, g)
attempt w call (suc fuel) number attempted u g =
    after_exchange w call attempted u (await w (suc number) g)
      (λ next s. attempt w call fuel (suc number) (next.name ∷ attempted) next s)
      (exchange w call number u)
