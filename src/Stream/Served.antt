-- ===== src/Stream/Served.antt =====
-- A request together with the stream that answers it.
use vllm_source_gateway.Base.{ℕ, Bool, true, false}
use vllm_source_gateway.Http.{ok, raises, crashes, cancels, unfinished}
use vllm_source_gateway.Usage.{UsageExtractor}
use vllm_source_gateway.Source.{SourceResolutionResult}
use vllm_source_gateway.Admission.Controller.{Controller}
use vllm_source_gateway.Proxy.State.{
  Gateway, World, ProxyConfig, Request, Handled, UpstreamResponse,
}
use vllm_source_gateway.Proxy.Failover.{Call}
use vllm_source_gateway.Proxy.Endpoint.{Reply, response, stream, Route, proxy_json_endpoint}
use vllm_source_gateway.Proxy.Balance.{SameActive, same_refl}
use vllm_source_gateway.Proxy.Asked.{asks_for_stream}
use vllm_source_gateway.Admission.Acquire.{release}
use vllm_source_gateway.Proxy.Stages.{IsQuiet}
use vllm_source_gateway.Proxy.Settled.{Settled, Cancelled}
use vllm_source_gateway.Proxy.Requests.{proxy_json_endpoint-Settles}
use vllm_source_gateway.Stream.State.{StreamCall}
use vllm_source_gateway.Stream.Finish.{Consumption, consumed, never_started, stream_bytes}
use vllm_source_gateway.Stream.Settled.{run_stream-Keeps, run_stream-unclosed}

-- The settings and the arguments that `_stream_bytes` closes over.
abbrev pub stream_call_of :
    (max_sse_decode_buffer_bytes : ℕ) → UsageExtractor → Call → UpstreamResponse → StreamCall
stream_call_of most extract call answer = record {
  department = call.department;
  model_name = call.model_name;
  endpoint = call.endpoint;
  status_code = answer.status_code;
  max_sse_decode_buffer_bytes = most;
  usage_extractor = extract;
}

-- The state once the reply has been sent.
abbrev pub deliver :
    World
    → (max_sse_decode_buffer_bytes : ℕ) → UsageExtractor
    → (n : ℕ) → Consumption
    → Handled Reply
    → Gateway
deliver w most extract n consumption (ok (stream call answer lease), g) =
    (stream_bytes w (stream_call_of most extract call answer) lease n g consumption).gateway
deliver w most extract n consumption (ok (response answer media_type), g) = g
deliver w most extract n consumption (raises x, g) = g
deliver w most extract n consumption (crashes, g) = g
deliver w most extract n consumption (cancels, g) = g
deliver w most extract n consumption (unfinished, g) = g

-- What is left once the reply to a request has been sent: for a stream that was not started or whose
-- `aclose` raised at most its lease, for a cancelled request what `Cancelled` says, else nothing.
abbrev pub Delivered :
    Controller → (streams : Bool) → Consumption → Handled Reply → Controller → Type 0
Delivered c streams (consumed true feed) (ok (stream call answer lease), g) q = SameActive c q
Delivered c streams (consumed false feed) (ok (stream call answer lease), g) q =
    SameActive c (release q lease)
Delivered c streams never_started (ok (stream call answer lease), g) q =
    SameActive c (release q lease)
Delivered c streams consumption (ok (response answer media_type), g) q = SameActive c q
Delivered c streams consumption (raises x, g) q = SameActive c q
Delivered c streams consumption (crashes, g) q = SameActive c q
Delivered c streams consumption (cancels, g) q = Cancelled c streams q
Delivered c streams consumption (unfinished, g) q = SameActive c q

module _ (w : World) (quiet : IsQuiet w) (most : ℕ) (extract : UsageExtractor) (n : ℕ)
    (c : Controller) (b : Bool) where
  deliver-Delivered :
      (consumption : Consumption) (o : Handled Reply)
      → Settled c b o
      → Delivered c b consumption o (deliver w most extract n consumption o).admission
  unfolding stream_bytes
  deliver-Delivered (consumed true feed) (ok (stream call answer lease), g) settled =
      run_stream-Keeps w (stream_call_of most extract call answer) quiet lease n g feed c settled
  deliver-Delivered (consumed false feed) (ok (stream call answer lease), g) settled =
      settled _
        (run_stream-unclosed w (stream_call_of most extract call answer) quiet lease n g feed)
  deliver-Delivered never_started (ok (stream call answer lease), g) settled =
      settled g.admission (same_refl g.admission)
  deliver-Delivered consumption (ok (response answer media_type), g) settled = settled
  deliver-Delivered consumption (raises x, g) settled = settled
  deliver-Delivered consumption (crashes, g) settled = settled
  deliver-Delivered consumption (cancels, g) settled = settled
  deliver-Delivered consumption (unfinished, g) settled = settled

-- Where other tasks leave, in sum, the active requests as they were, a request and the delivery of its
-- answer together do so too, for a stream that ends, is cut off by the upstream, is cancelled or is
-- abandoned by the client at any chunk, as long as it was started and its `aclose` returns. A stream
-- that was never started or whose `aclose` raised leaves its lease, if it has one, and no more; and a
-- request that is cancelled before its response leaves at most one lease, and that only if its body
-- asks for a stream.
pub deliver-proxy_json_endpoint :
    (w : World) (config : ProxyConfig) (request : Request) (source : SourceResolutionResult)
    (route : Route) (g : Gateway) (most n : ℕ) (consumption : Consumption)
    → IsQuiet w
    → Delivered g.admission
        (asks_for_stream w request)
        consumption
        (proxy_json_endpoint w config request source route g)
        (deliver w most route.usage_extractor n consumption
          (proxy_json_endpoint w config request source route g)).admission
deliver-proxy_json_endpoint w config request source route g most n consumption quiet =
    deliver-Delivered w quiet most route.usage_extractor n g.admission (asks_for_stream w request)
      consumption (proxy_json_endpoint w config request source route g)
      (proxy_json_endpoint-Settles w config request source route g quiet)
