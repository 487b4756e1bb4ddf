-- ===== src/Sse.antt =====
-- `_consume_sse_events` of src/vllm_source_gateway/services/proxy.py: the usage that the events of a
-- stream report.
pub mod Parts
pub mod Chunks
pub mod Bounded
use vllm_source_gateway.Base.{
  ℕ, suc, List, [], ◌∷◌, ◌++◌, map, Bool, true, false, Option, none, some, ◌==◌, ◌+◌, ltb, beq, sum,
  if◌then◌else◌,
}
use vllm_source_gateway.Text.{Text, codes, text_eq, lstrip}
use vllm_source_gateway.Json.{Loads, loads_value, decode_error, value_error, recursion_error}
use vllm_source_gateway.Usage.{UsageTokens, UsageExtractor}

-- The bytes of a code point in UTF-8.
abbrev pub utf8_bytes : ℕ → ℕ
utf8_bytes c = if ltb c 0x80 then 1 else if ltb c 0x800 then 2 else if ltb c 0x10000 then 3 else 4

-- len(s.encode("utf-8"))
abbrev pub utf8_length : Text → ℕ
utf8_length = sum utf8_bytes

-- s.replace("\r\n", "\n")
unfoldable pub replace_crlf : Text → Text
replace_crlf [] = []
replace_crlf (c ∷ []) = c ∷ []
replace_crlf (c ∷ d ∷ s) =
    let behind = replace_crlf s in
    let later = replace_crlf (d ∷ s) in
    if c == 13 then (if d == 10 then d ∷ behind else c ∷ later) else c ∷ later

abbrev pub Split : Type 0
Split = List Text × Text

-- A code point in front of a text that was split.
abbrev pub in_front : ℕ → Split → Split
in_front c ([], rest) = ([], c ∷ rest)
in_front c (event ∷ events, rest) = ((c ∷ event) ∷ events, rest)

abbrev pub close_event : Split → Split
close_event (events, rest) = ([] ∷ events, rest)

-- The events in front of each "\n\n" and the rest behind the last: what the loop with
-- `split("\n\n", 1)` takes off one by one.
unfoldable pub split_events : Text → Split
split_events [] = ([], [])
split_events (c ∷ []) = ([], c ∷ [])
split_events (c ∷ d ∷ s) =
    let rest = split_events s in
    let later = split_events (d ∷ s) in
    if c == 10 then (if d == 10 then close_event rest else in_front c later) else in_front c later

abbrev first_line : ℕ → List Text → List Text
first_line c [] = (c ∷ []) ∷ []
first_line c (line ∷ lines) = (c ∷ line) ∷ lines

-- s.split("\n")
unfoldable pub split_lines : Text → List Text
split_lines [] = [] ∷ []
split_lines (c ∷ s) =
    let lines = split_lines s in if c == 10 then [] ∷ lines else first_line c lines

-- line[len(prefix):] where the line starts with the prefix
abbrev after_prefix : Text → Text → Option Text
after_prefix [] line = some line
after_prefix (a ∷ prefix) [] = none
after_prefix (a ∷ prefix) (b ∷ line) = if a == b then after_prefix prefix line else none

unfoldable pub data_lines : List Text → List Text
unfolding lstrip
data_lines [] = []
data_lines (line ∷ lines) =
    let rest = data_lines lines in
    elim (after_prefix (codes "data:") line) [ none ↦ rest | some text ↦ lstrip text ∷ rest ]

-- "\n".join(lines)
abbrev pub join_lines : List Text → Text
join_lines [] = []
join_lines (line ∷ []) = line
join_lines (line ∷ next ∷ lines) = line ++ 10 ∷ join_lines (next ∷ lines)

module _ (json_loads : Text → Loads) (usage_extractor : UsageExtractor) where
  -- The usage after the payload of an event; `none` where the extractor raises, or json.loads raises
  -- anything but a JSONDecodeError.
  unfoldable pub payload_usage : UsageTokens → Text → Option UsageTokens
  payload_usage latest event_payload =
      if beq event_payload (codes "[DONE]") then some latest else elim (json_loads event_payload) [
        | decode_error ↦ some latest
        | value_error ↦ none
        | recursion_error ↦ none
        | loads_value parsed ↦ elim (usage_extractor parsed) [
          | none ↦ none
          | some usage ↦ elim usage [ none ↦ some latest | some tokens ↦ some (some tokens) ]
        ]
      ]

  unfoldable pub event_usage : UsageTokens → Text → Option UsageTokens
  unfolding split_lines data_lines payload_usage
  event_usage latest raw_event = elim (data_lines (split_lines raw_event)) [
    | [] ↦ some latest
    | line ∷ lines ↦ payload_usage latest (join_lines (line ∷ lines))
  ]

  unfoldable pub events_usage : UsageTokens → List Text → Option UsageTokens
  unfolding event_usage
  events_usage latest [] = some latest
  events_usage latest (event ∷ events) = elim (event_usage latest event) [
    | none ↦ none
    | some usage ↦ events_usage usage events
  ]

  -- What a call does with the normalized buffer.
  unfoldable pub consume_normalized :
      (max_buffer_bytes : ℕ) (normalized_buffer : Text)
      → UsageTokens
      → Option (Text × UsageTokens × Bool)
  unfolding split_events events_usage
  consume_normalized max_buffer_bytes normalized_buffer latest_usage =
      if ltb max_buffer_bytes (utf8_length normalized_buffer)
      then some ([], latest_usage, true)
      else elim (events_usage latest_usage (split_events normalized_buffer).0) [
        | none ↦ none
        | some usage ↦ some ((split_events normalized_buffer).1, usage, false)
      ]

  -- The new buffer, the latest usage, and whether the buffer overflowed; `none` where it raises.
  unfoldable pub consume_sse_events :
      (max_buffer_bytes : ℕ) (buffer fragment : Text)
      → UsageTokens
      → Option (Text × UsageTokens × Bool)
  unfolding replace_crlf consume_normalized
  consume_sse_events max_buffer_bytes buffer fragment latest_usage =
      consume_normalized max_buffer_bytes (replace_crlf (buffer ++ fragment)) latest_usage
