-- ===== src/Capacity/Request.antt =====
-- `run_streaming_request`: one request of the load test.
use vllm_source_gateway.Base.{
  ℕ, suc, String, List, [], ◌∷◌, Bool, false, ◌&&◌, Option, none, some, leb, ltb, ◌+◌, length,
  if◌then◌else◌,
}

pub record RequestResult : Type 0 where
  pub model : String
  pub path : String
  pub concurrency : ℕ
  pub request_index : ℕ
  pub ok : Bool
  pub status_code : Option ℕ
  pub first_chunk_seconds : Option ℕ
  pub total_seconds : ℕ
  pub bytes_received : ℕ
  pub chunks_received : ℕ
  pub error : Option String

-- What the HTTP client meets: no response, or the chunks, each at its time, and how their iteration
-- ends; the texts are those of the exceptions. The times are those since the request began.
pub data StreamEnd : Type 0 where
  complete : (elapsed : ℕ) → StreamEnd
  broken : (error : String) → (elapsed : ℕ) → StreamEnd

pub data StreamReply : Type 0 where
  unreachable : (error : String) → (elapsed : ℕ) → StreamReply
  opened : (status_code : ℕ) → List (List ℕ × ℕ) → StreamEnd → StreamReply

-- The variables of the loop over the chunks.
pub record Received : Type 0 where
  pub bytes_received : ℕ
  pub chunks_received : ℕ
  pub first_chunk_at : Option ℕ

abbrev nothing : Received
nothing = record { bytes_received = 0; chunks_received = 0; first_chunk_at = none }

abbrev earliest : Option ℕ → ℕ → Option ℕ
earliest none at = some at
earliest (some first) at = some first

unfoldable pub receive : List (List ℕ × ℕ) → Received → Received
receive [] r = r
receive (([], at) ∷ chunks) r = receive chunks r
receive ((b ∷ bytes, at) ∷ chunks) r = receive chunks (record {
  bytes_received = r.bytes_received + length (b ∷ bytes);
  chunks_received = suc r.chunks_received;
  first_chunk_at = earliest r.first_chunk_at at;
})

-- The arguments that the requests of a level share.
pub record Level : Type 0 where
  pub model : String
  pub path : String
  pub concurrency : ℕ

-- return RequestResult(...) of the `except`
abbrev failed_result :
    Level
    → (request_index : ℕ) (status_code : Option ℕ) → Received
    → (error : String) → (elapsed : ℕ) → RequestResult
failed_result level request_index status_code r error elapsed = record {
  model = level.model;
  path = level.path;
  concurrency = level.concurrency;
  request_index = request_index;
  ok = false;
  status_code = status_code;
  first_chunk_seconds = none;
  total_seconds = elapsed;
  bytes_received = r.bytes_received;
  chunks_received = r.chunks_received;
  error = some error;
}

unfoldable pub is_ok : (status_code : ℕ) → Received → Bool
is_ok status_code r = leb 200 status_code && ltb status_code 300 && ltb 0 r.chunks_received

abbrev whole_result :
    Level → (request_index status_code : ℕ) → Received → (elapsed : ℕ) → RequestResult
whole_result level request_index status_code r elapsed = record {
  model = level.model;
  path = level.path;
  concurrency = level.concurrency;
  request_index = request_index;
  ok = is_ok status_code r;
  status_code = some status_code;
  first_chunk_seconds = r.first_chunk_at;
  total_seconds = elapsed;
  bytes_received = r.bytes_received;
  chunks_received = r.chunks_received;
  error = if is_ok status_code r then none else some "non_2xx_or_empty_stream";
}

-- The `try` and its `except`. The path is a key of PATH_TO_ENDPOINT, as `validate_args` has made sure, so
-- the statements in front of the `try` raise nothing.
unfoldable pub run_streaming_request : Level → (request_index : ℕ) → StreamReply → RequestResult
unfolding receive is_ok
run_streaming_request level request_index (unreachable error elapsed) =
    failed_result level request_index none nothing error elapsed
run_streaming_request level request_index (opened status_code chunks (complete elapsed)) =
    whole_result level request_index status_code (receive chunks nothing) elapsed
run_streaming_request level request_index (opened status_code chunks (broken error elapsed)) =
    failed_result level request_index (some status_code) (receive chunks nothing) error elapsed
