-- ===== src/Examples/Stream.antt =====
-- Examples for `Stream`.
use vllm_source_gateway.Base.{
  ◌≤◌, ◌≡◌, refl, suc, ◌++◌, List, [], ◌∷◌, true, false, none, some, pos, arith, ℕ,
}
use vllm_source_gateway.Text.{Text, codes}
use vllm_source_gateway.Json.{loads_value, get_field, obj, field, str, bool, end}
use vllm_source_gateway.Usage.{extract_chat_usage, UsageTokens}
use vllm_source_gateway.Sse.{utf8_length, split_events, events_usage}
use vllm_source_gateway.Admission.Controller.{active_of_model}
use vllm_source_gateway.Proxy.State.{World, call_cancelled}
use vllm_source_gateway.Proxy.Endpoint.{proxy_json_endpoint}
use vllm_source_gateway.Proxy.Asked.{asks_for_stream}
use vllm_source_gateway.Proxy.Balance.{same_refl}
use vllm_source_gateway.Stream.Utf8.{between_characters, decode, is_complete}
use vllm_source_gateway.Stream.State.{StreamCall, started, yielded, Feed, ends, broken, chunk}
use vllm_source_gateway.Stream.Pump.{pump}
use vllm_source_gateway.Stream.Finish.{consumed, note_usage, settle_accounts, run_stream}
use vllm_source_gateway.Stream.Accounted.{accountings, run_stream-accountings}
use vllm_source_gateway.Stream.Passed.{run_stream-propagates}
use vllm_source_gateway.Stream.Bounded.{pump-started-Holds}
use vllm_source_gateway.Stream.Whole.{pump-whole}
use vllm_source_gateway.Stream.Served.{Delivered, deliver, deliver-proxy_json_endpoint}
use vllm_source_gateway.Examples.Proxy.{gateway, world, proxy_config, request, source, route}
use vllm_source_gateway.Examples.Sse.{usage}

abbrev call : StreamCall
call = record {
  department = "d";
  model_name = "m";
  endpoint = "chat";
  status_code = 200;
  max_sse_decode_buffer_bytes = 100;
  usage_extractor = extract_chat_usage;
}

abbrev reporting : World
reporting = record world { event_loads = λ text. loads_value usage }

-- The request asks for a stream.
abbrev streaming : World
streaming = record world {
  json_loads = λ s. loads_value (obj (field "model" (str "m") (field "stream" (bool true) end)));
}

-- Three chunks: the first one ends within a character of two bytes.
abbrev feed : Feed
feed =
    chunk (codes "data: {}" ++ 0xc3 ∷ []) (yielded 1)
      (chunk (0xa9 ∷ 10 ∷ []) (yielded 2) (chunk (10 ∷ codes "data: [DONE]") (yielded 3) ends))

abbrev cut : Feed
cut = chunk (0xff ∷ []) (yielded 1) broken

abbrev bytes : List ℕ
bytes = codes "data: {}" ++ 0xc3 ∷ 0xa9 ∷ 10 ∷ 10 ∷ codes "data: [DONE]"

abbrev text : Text
text = codes "data: {}" ++ 0xe9 ∷ 10 ∷ 10 ∷ codes "data: [DONE]"

abbrev reported : UsageTokens
reported = some (pos 3, pos 4)

pump_run : (pump reporting call 1 started gateway feed).state.latest_usage ≡ reported
unfolding pump started get_field
pump_run = refl

cut_run :
    (pump reporting call 1 started gateway cut).state.accounting_status_override
    ≡ some "parse_error"
unfolding pump started
cut_run = refl

pump-whole_example :
    settle_accounts reporting call (pump reporting call 1 started gateway feed).state gateway
    ≡ note_usage reporting call reported gateway
unfolding decode split_events events_usage get_field is_complete
pump-whole_example =
    pump-whole reporting call 1 gateway gateway feed bytes text between_characters reported refl
      refl refl (refl, omega arith) refl

run_stream-accountings_example :
    accountings (run_stream reporting call none 0 true gateway cut).gateway.admission
    ≡ suc (accountings gateway.admission)
run_stream-accountings_example =
    run_stream-accountings reporting call none 0 gateway cut λ n r c. refl

run_stream-propagates_example :
    (run_stream reporting call none 0 true gateway cut).propagates ≡ false
unfolding pump started get_field
run_stream-propagates_example = run_stream-propagates reporting call none 0 gateway cut refl refl

deliver-proxy_json_endpoint_example :
    Delivered gateway.admission
      (asks_for_stream streaming request)
      (consumed true feed)
      (proxy_json_endpoint streaming proxy_config request source route gateway)
      (deliver streaming 100 extract_chat_usage 7
        (consumed true feed)
        (proxy_json_endpoint streaming proxy_config request source route gateway)).admission
deliver-proxy_json_endpoint_example =
    deliver-proxy_json_endpoint streaming proxy_config request source route gateway 100 7
      (consumed true feed) λ n r c. same_refl c

pump-started-Holds_example :
    utf8_length (pump reporting call 1 started gateway feed).state.decode_buffer ≤ 100
pump-started-Holds_example = pump-started-Holds reporting call 1 gateway feed

-- A request for a stream that is cancelled while it waits for the answer keeps its lease.
abbrev cancelled_world : World
cancelled_world = record streaming { send = λ n url headers payload. call_cancelled }

cancelled_run :
    active_of_model
      (proxy_json_endpoint cancelled_world proxy_config request source route gateway).1.admission
      "m"
    ≡ 1
unfolding proxy_json_endpoint get_field vllm_source_gateway.Dict.get
    vllm_source_gateway.Routing.Registry.new vllm_source_gateway.Dict.put
    vllm_source_gateway.Dict.empty vllm_source_gateway.Admission.Controller.init
    vllm_source_gateway.Admission.Acquire.model_full
    vllm_source_gateway.Admission.Acquire.department_full
    vllm_source_gateway.Admission.Controller.department_model_limit
    vllm_source_gateway.Admission.Controller.token_budget
cancelled_run = refl
