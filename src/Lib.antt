-- ===== src/Lib.antt =====
-- vllm-source-gateway: a gateway in front of vLLM servers. It attributes each request to a department
-- by its API key, admits it within limits on concurrency, tokens and shape, picks a healthy upstream
-- for its model in turn, tries another one when it cannot connect, and accounts for the outcome.
--
-- The parts, by the file that models them; the paths of the source are those of the repository.
--   Admission     src/vllm_source_gateway/services/admission_control.py, class AdmissionController:
--                 Admission.Controller has the state and the private methods, Admission.Shape
--                 check_request_shape, Admission.Acquire acquire and release, Admission.Accounting
--                 record_tokens and record_retry_event. Admission.Config has the sections of
--                 src/vllm_source_gateway/config.py that it reads.
--   Config        src/vllm_source_gateway/config.py, the validators: Config.Department, Config.Upstream,
--                 Config.Limits and Config.Sections a section each, Config.App AppConfig.
--   Routing       src/vllm_source_gateway/routing.py, class RoutingRegistry: Routing.Registry has the
--                 state and all methods but select_upstream, which is Routing.Select. Models is
--                 src/vllm_source_gateway/models.py, Sorting the `sorted` of the two listings.
--   Proxy         src/vllm_source_gateway/services/proxy.py: Proxy.State has the state of a handler
--                 and what it relies on, Proxy.Headers the header filters, Proxy.Body the checks before
--                 admission, Proxy.Upstream the selection, the transport errors and the accounting,
--                 Proxy.Failover the loop over upstreams, Proxy.Endpoint proxy_json_endpoint. Sse is
--                 the parser of a stream's events, _consume_sse_events. Stream is the generator
--                 _stream_bytes: Stream.Pump its loop, Stream.Finish its finally, Stream.Utf8 the
--                 decoder of the codecs module.
--   Health        src/vllm_source_gateway/services/upstream_health.py, the monitor.
--   Source        src/vllm_source_gateway/dependencies.py, API key and department.
--   Routes        src/vllm_source_gateway/routers/health.py and models.py, the payloads.
--   Middleware    src/vllm_source_gateway/main.py, request_metrics_middleware.
--   Logging       src/vllm_source_gateway/logging_utils.py, the access log.
--   Catalog       src/vllm_source_gateway/rendering/catalog.py, the cards of the catalog page.
--   Capacity      tools/capacity_baseline.py, the load test.
--   RequestMetrics, Metrics, Usage
--                 src/vllm_source_gateway/request_metrics.py, src/vllm_source_gateway/metrics.py, and
--                 the `_extract_usage` of src/vllm_source_gateway/routers.
-- Base, Dict, Text, Json and Http hold what they share: tests and lists, Python's dict, str and JSON
-- values, and the outcome of a call that may raise. The other files of a folder hold the proofs.
--
-- The proxy endpoint holds one registry and one controller, shared with all other requests and with the
-- monitor; the model passes them as a state. Each method of the two runs under its lock, so it is one
-- step. At an await of a handler other tasks run: the argument `meanwhile` of Proxy.State.World is what
-- they do, and a theorem says what it needs of them. The HTTP client, json.loads, int() on a header and
-- the clock are arguments too, the fields of World and of Health.Prober. The client answers, raises an
-- httpx.HTTPError or another exception, or is left by the CancelledError of the handler's task, which
-- is an outcome of its own, since `except Exception` does not catch it; json.loads yields a value, a
-- JSONDecodeError, another ValueError or a RecursionError. Overlapping requests are the subject of
-- Admission.System, where callers acquire and release in any order; a theorem on one request of the
-- proxy that counts active requests asks of the other tasks that, between two steps of it, they leave
-- the counts as they were.
--
-- Times and durations are natural numbers of ticks, a microsecond each, in place of float seconds. The
-- integers of Python are unbounded, and so are those of the model. A float in a JSON body is its bit
-- pattern, since the only test on it is equality with 1. str.lower and str.upper are those of ASCII.
--
-- The failover loop runs on fuel, the number of upstreams of the model; `unfinished` marks a loop that
-- ran out of it. The decimal digits of n are found on fuel n + 1, a level of the load test runs on a
-- round more than its requests. All other loops are structural.
--
-- Not modelled: what pydantic and yaml do for the configuration, the set-up of the application and of
-- logging, the log formatter, the fixed text of the catalog page around its cards, and of the load
-- test the printing and the reports. A cancellation at the await on a request's body, where nothing is
-- held yet, is left out too.
-- prometheus_client is a log of the calls made on it.
pub mod Base
pub mod Dict
pub mod Text
pub mod Json
pub mod Http
pub mod Metrics
pub mod Admission
pub mod Sorting
pub mod Models
pub mod Routing
pub mod Config
pub mod Usage
pub mod Source
pub mod RequestMetrics
pub mod Sse
pub mod Proxy
pub mod Stream
pub mod Logging
pub mod Middleware
pub mod Routes
pub mod Health
pub mod Catalog
pub mod Capacity
pub mod Examples
