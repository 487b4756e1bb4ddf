-- ===== src/Stream/State.antt =====
-- The variables of the generator, and what it meets.
use vllm_source_gateway.Base.{ℕ, String, List, [], Bool, true, false, Option, none}
use vllm_source_gateway.Text.{Text}
use vllm_source_gateway.Usage.{UsageTokens, UsageExtractor}
use vllm_source_gateway.Stream.Utf8.{Decoder, between_characters}

-- What the generator takes from the call that made it.
pub record StreamCall : Type 0 where
  pub department : String
  pub model_name : String
  pub endpoint : String
  pub status_code : ℕ
  pub max_sse_decode_buffer_bytes : ℕ
  pub usage_extractor : UsageExtractor

-- Its local variables.
pub record StreamState : Type 0 where
  pub latest_usage : UsageTokens
  pub decode_buffer : Text
  pub parsing_enabled : Bool
  pub accounting_status_override : Option String
  pub decoder : Decoder
  pub client_disconnected : Bool
  pub stream_failed : Bool
  pub first_chunk_recorded : Bool

unfoldable pub started : StreamState
started = record {
  latest_usage = none;
  decode_buffer = [];
  parsing_enabled = true;
  accounting_status_override = none;
  decoder = between_characters;
  client_disconnected = false;
  stream_failed = false;
  first_chunk_recorded = false;
}

-- What becomes of a chunk: at the await of `request.is_disconnected()` the client is gone, or the
-- task is cancelled; or the chunk is yielded, so many ticks after the answer began; the server goes
-- on, or closes the generator there.
pub data Reception : Type 0 where
  gone : Reception
  interrupted : Reception
  yielded : (elapsed : ℕ) → Reception
  closed : (elapsed : ℕ) → Reception

-- What the iteration over `aiter_bytes()` meets: its end, an exception at its await, or a chunk and
-- what follows it.
pub data Feed : Type 0 where
  ends : Feed
  cancelled : Feed
  broken : Feed
  fails : Feed
  chunk : List ℕ → Reception → Feed → Feed

-- How the `try` is left: at its end or by the `break`, by GeneratorExit, or by another exception.
pub data Exit : Type 0 where
  finished : Exit
  exited : Exit
  raised : Exit
