-- ===== src/Proxy/State.antt =====
-- What a request handler reads and changes, and what lies outside of the program.
use Prim.Native.String.{◌++◌ as append}
use vllm_source_gateway.Base.{
  ℕ, zero, suc, ℤ, String, List, [], ◌∷◌, get_elem?, or_default, Bool, Option, ◌/◌, ◌%◌,
}
use vllm_source_gateway.Dict.{Dict}
use vllm_source_gateway.Text.{Text}
use vllm_source_gateway.Json.{Loads, Fields}
use vllm_source_gateway.Http.{Outcome}
use vllm_source_gateway.Metrics.{GatewayMetrics}
use vllm_source_gateway.Admission.Controller.{Controller}
use vllm_source_gateway.Routing.Registry.{RoutingRegistry}
use vllm_source_gateway.RequestMetrics.{RequestState}

-- The objects of `app.state` that a handler shares with other requests, and its own
-- `request.state`. The controller and the handlers hold one `GatewayMetrics` object: it is the field
-- `metrics` of the controller.
pub record Gateway : Type 0 where
  pub routing : RoutingRegistry
  pub admission : Controller
  pub request : RequestState

-- The settings of AppConfig that a handler reads.
pub record ProxyConfig : Type 0 where
  pub reject_unknown_api_keys : Bool
  pub max_request_body_bytes : ℕ

-- A request as Starlette hands it over; `body` is `none` where reading it raises.
pub record Request : Type 0 where
  pub headers : List (Text × Text)
  pub body : Option (List ℕ)

-- The subclasses of httpx.HTTPError that the code tells apart. The last but one stands for the
-- timeouts other than ConnectTimeout, the last for all else.
pub data TransportError : Type 0 where
  connect_error connect_timeout other_timeout other_error : TransportError

-- `headers` are the items of `response.headers`, where httpx has joined the values of a name that
-- occurs several times.
pub record UpstreamResponse : Type 0 where
  pub status_code : ℕ
  pub headers : List (Text × Text)
  pub content : List ℕ

-- What a call of the HTTP client comes to: an answer and how long it took, an httpx.HTTPError, another
-- exception, or the cancellation of the handler's task while it waits.
pub data Exchange : Type 0 where
  answered : UpstreamResponse → (duration : ℕ) → Exchange
  broken : TransportError → Exchange
  call_failed call_cancelled : Exchange

-- What the handler relies on. `json_loads` is `json.loads` of the body and `response.json()`,
-- `event_loads` is `json.loads` of the payload of a stream's event,
-- `parse_int` is `int` of a header. `send` is the HTTP client: the answer to the attempt of that
-- number, for the URL, the headers and the JSON payload. `meanwhile` is what other tasks do to
-- the shared objects at an await: 0 for the one on the body, `suc n` for the one on attempt `n`. The
-- times are those at which the handler's calls of the controller read the clock.
pub record World : Type 0 where
  pub json_loads : List ℕ → Loads
  pub event_loads : Text → Loads
  pub parse_int : Text → Option ℤ
  pub send : ℕ → String → Dict Text Text → Fields → Exchange
  pub meanwhile : ℕ → RoutingRegistry × Controller → RoutingRegistry × Controller
  pub acquired_at : ℕ
  pub retried_at : ℕ
  pub recorded_at : ℕ

abbrev pub Handled : Type 0 → Type 0
Handled A = Outcome Gateway A

unfoldable pub with_metrics : Gateway → (GatewayMetrics → GatewayMetrics) → Gateway
with_metrics g f = record g { admission = record g.admission { metrics = f g.admission.metrics } }

unfoldable pub with_request : Gateway → (RequestState → RequestState) → Gateway
with_request g f = record g { request = f g.request }

unfoldable pub with_admission : Gateway → Controller → Gateway
with_admission g c = record g { admission = c }

-- The state after an await.
unfoldable pub await : World → ℕ → Gateway → Gateway
await w n g =
    let (routing, admission) = w.meanwhile n (g.routing, g.admission) in
    record g { routing = routing; admission = admission }

-- A method of the controller that may raise.
unfoldable pub on_admission : {A : Type 0} → Gateway → Outcome Controller A → Handled A
unfolding with_admission
on_admission g (result, c) = (result, with_admission g c)

abbrev digits : List String
digits = "0" ∷ "1" ∷ "2" ∷ "3" ∷ "4" ∷ "5" ∷ "6" ∷ "7" ∷ "8" ∷ "9" ∷ []

abbrev digit : ℕ → String
digit n = or_default (get_elem? digits n) ""

decimal_from : (fuel n : ℕ) → String
decimal_from zero n = ""
decimal_from (suc fuel) n = elim (n / 10) [
  | zero ↦ digit n
  | suc q ↦ append (decimal_from fuel (suc q)) (digit (n % 10))
]

-- str(n)
unfoldable pub decimal : ℕ → String
unfolding decimal_from
decimal n = decimal_from (suc n) n
