-- ===== src/Examples/Sse.antt =====
-- Examples for `Sse`.
use vllm_source_gateway.Base.{◌≡◌, refl, [], ◌∷◌, ◌++◌, false, none, some, pos, arith}
use vllm_source_gateway.Text.{Text, codes}
use vllm_source_gateway.Json.{Value, Loads, loads_value, obj, int, field, end, get_field}
use vllm_source_gateway.Usage.{extract_chat_usage}
use vllm_source_gateway.Sse.{consume_sse_events}
use vllm_source_gateway.Sse.Chunks.{consume_next, consume_sse_events-append}

abbrev pub usage : Value
usage = obj (
    field "usage"
      (obj (field "prompt_tokens" (int (pos 3)) (field "completion_tokens" (int (pos 4)) end))) end)

abbrev loads : Text → Loads
loads text = loads_value usage

-- An event that is cut between its two newlines.
abbrev opening : Text
opening = codes "data: {}" ++ 10 ∷ []

abbrev closing : Text
closing = 10 ∷ codes "data: [DONE]"

consume_sse_events_run :
    consume_sse_events loads extract_chat_usage 100 opening closing none
    ≡ some (codes "data: [DONE]", some (pos 3, pos 4), false)
unfolding consume_sse_events get_field
consume_sse_events_run = refl

consume_sse_events-append_example :
    consume_next loads extract_chat_usage 100 closing
      (consume_sse_events loads extract_chat_usage 100 [] opening none)
    ≡ consume_sse_events loads extract_chat_usage 100 [] (opening ++ closing) none
consume_sse_events-append_example =
    consume_sse_events-append loads extract_chat_usage 100 [] opening closing none refl
      (omega arith)
