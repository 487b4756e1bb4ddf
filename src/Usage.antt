-- ===== src/Usage.antt =====
-- The `_extract_usage` of the routers chat_completions, responses and messages in
-- src/vllm_source_gateway/routers: the prompt and the generation tokens that a response reports.
use vllm_source_gateway.Base.{ℤ, String, Option, none, some, string_eq}
use vllm_source_gateway.Json.{Value, Fields, get_field, as_int, as_dict}

abbrev pub UsageTokens : Type 0
UsageTokens = Option (ℤ × ℤ)

-- A call of `_extract_usage`: `none` is the AttributeError of `.get` on a value that is not a dict.
abbrev pub UsageExtractor : Type 0
UsageExtractor = Value → Option UsageTokens

-- if isinstance(a, int) and isinstance(b, int): return a, b
abbrev both_ints : Option Value → Option Value → UsageTokens
both_ints (some a) (some b) = elim (as_int a) [
  | none ↦ none
  | some x ↦ elim (as_int b) [ none ↦ none | some y ↦ some (x, y) ]
]
both_ints _ _ = none

-- d.get(k, d.get(other))
abbrev get_either : String → String → Fields → Option Value
get_either k other d = elim (get_field k d) [ none ↦ get_field other d | some v ↦ some v ]

-- d.get(k), where it is a dict
abbrev get_dict : String → Fields → Option Fields
get_dict k d = elim (get_field k d) [ none ↦ none | some v ↦ as_dict v ]

abbrev usage_of_chat : Fields → UsageTokens
usage_of_chat payload = elim (get_dict "usage" payload) [
  | none ↦ none
  | some usage ↦ both_ints (get_field "prompt_tokens" usage) (get_field "completion_tokens" usage)
]

abbrev named_tokens : Fields → UsageTokens
named_tokens usage =
    both_ints (get_either "input_tokens" "prompt_tokens" usage)
      (get_either "output_tokens" "completion_tokens" usage)

abbrev usage_of_responses : Fields → UsageTokens
usage_of_responses payload = elim (get_dict "usage" payload) [
  | none ↦ none
  | some usage ↦ named_tokens usage
]

abbrev message_usage : Fields → UsageTokens
message_usage payload = elim (get_dict "message" payload) [
  | none ↦ none
  | some message ↦ elim (get_dict "usage" message) [ none ↦ none | some usage ↦ named_tokens usage ]
]

abbrev usage_of_messages : Fields → UsageTokens
usage_of_messages payload = elim (get_dict "usage" payload) [
  | none ↦ none
  | some usage ↦ elim (named_tokens usage) [
    | none ↦ message_usage payload
    | some tokens ↦ some tokens
  ]
]

abbrev on_dict : (Fields → UsageTokens) → UsageExtractor
on_dict extract value = elim (as_dict value) [ none ↦ none | some payload ↦ some (extract payload) ]

abbrev pub extract_chat_usage : UsageExtractor
extract_chat_usage = on_dict usage_of_chat

abbrev pub extract_responses_usage : UsageExtractor
extract_responses_usage = on_dict usage_of_responses

abbrev pub extract_messages_usage : UsageExtractor
extract_messages_usage = on_dict usage_of_messages
