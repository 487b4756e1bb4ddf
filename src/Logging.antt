-- ===== src/Logging.antt =====
-- src/vllm_source_gateway/logging_utils.py: the access log.
pub mod Private
use vllm_source_gateway.Base.{
  string_eq, ℕ, String, List, [], ◌∷◌, ◌++◌, Bool, ◌&&◌, Option, none, some, leb, ltb,
  if◌then◌else◌, beq, false,
}
use vllm_source_gateway.Text.{Text, codes}
use vllm_source_gateway.RequestMetrics.{RequestMetricsSnapshot}
use vllm_source_gateway.Proxy.Body.{header_of}

-- The values of the fields that are logged.
pub data LogValue : Type 0 where
  text : Text → LogValue
  name : String → LogValue
  number : ℕ → LogValue

abbrev pub LogFields : Type 0
LogFields = List (String × LogValue)

-- What the log reads of a request: request.url.path and its headers.
pub record LoggedRequest : Type 0 where
  pub path : Text
  pub headers : List (Text × Text)

-- if value is not None: fields[key] = value
abbrev optional_name : String → Option String → LogFields
optional_name key none = []
optional_name key (some value) = (key, name value) ∷ []

abbrev optional_text : String → Option Text → LogFields
optional_text key none = []
optional_text key (some value) = (key, text value) ∷ []

-- snapshot.endpoint or request.url.path
abbrev endpoint_field : Option String → Text → LogValue
endpoint_field none path = text path
endpoint_field (some endpoint) path = if beq endpoint "" then text path else name endpoint

-- The items of the dict, in order. A tick is the unit of `round(..., 6)`.
unfoldable pub build_access_log_fields : LoggedRequest → RequestMetricsSnapshot → LogFields
build_access_log_fields request snapshot =
    ("method", text snapshot.method)
    ∷ ("path", text request.path)
    ∷ ("status_code", number snapshot.status_code)
    ∷ ("duration_seconds", number snapshot.duration_seconds)
    ∷ ("endpoint", endpoint_field snapshot.endpoint request.path)
    ∷ (optional_name "department" snapshot.department
        ++ optional_name "failure_origin" snapshot.failure_origin
        ++ optional_text "request_id" (header_of (codes "x-request-id") request.headers)
        ++ optional_text "trace_id" (header_of (codes "x-trace-id") request.headers))

pub data LogLevel : Type 0 where
  info warning : LogLevel

pub record LogRecord : Type 0 where
  pub level : LogLevel
  pub fields : LogFields

-- if snapshot.endpoint is None and snapshot.status_code < 500
abbrev pub is_quiet : RequestMetricsSnapshot → Bool
is_quiet snapshot = elim snapshot.endpoint [
  | none ↦ ltb snapshot.status_code 500
  | some endpoint ↦ false
]

unfoldable pub completion_record : LoggedRequest → RequestMetricsSnapshot → LogRecord
unfolding build_access_log_fields
completion_record request snapshot = record {
  level = if leb 500 snapshot.status_code then warning else info;
  fields = build_access_log_fields request snapshot;
}

-- The records of the access log, the latest first.
unfoldable pub log_request_completion :
    LoggedRequest → Option RequestMetricsSnapshot → List LogRecord → List LogRecord
unfolding completion_record
log_request_completion request none log = log
log_request_completion request (some snapshot) log =
    if is_quiet snapshot then log else completion_record request snapshot ∷ log
