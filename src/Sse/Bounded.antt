-- ===== src/Sse/Bounded.antt =====
-- The buffer of a stream stays within its bound.
use vllm_source_gateway.Base.{
  ℕ, ◌≡◌, ◌≤◌, ◌++◌, Bool, false, Option, none, some, ltb, if_rule, option_rule, arith,
}
use vllm_source_gateway.Text.{Text}
use vllm_source_gateway.Json.{Loads}
use vllm_source_gateway.Usage.{UsageTokens, UsageExtractor}
use vllm_source_gateway.Sse.{
  utf8_length, replace_crlf, split_events, events_usage, consume_normalized, consume_sse_events,
}
use vllm_source_gateway.Sse.Parts.{rest-Within}

-- What a call returned has a buffer within the bound.
abbrev pub IsBounded : ℕ → Option (Text × UsageTokens × Bool) → Type 0
IsBounded most none = Unit
IsBounded most (some (buffer, usage, overflowed)) = utf8_length buffer ≤ most

within : (most n rest : ℕ) → ltb most n ≡ false → rest ≤ n → rest ≤ most
within most n rest fits less = ground (arith, fits, less)

-- Whatever the buffer, the fragment and the events are.
pub consume_sse_events-IsBounded :
    (loads : Text → Loads) (extract : UsageExtractor) (most : ℕ) (buffer fragment : Text)
    (latest : UsageTokens)
    → IsBounded most (consume_sse_events loads extract most buffer fragment latest)
unfolding consume_sse_events consume_normalized
consume_sse_events-IsBounded loads extract most buffer fragment latest =
    let text = replace_crlf (buffer ++ fragment) in
    if_rule (IsBounded most) (ltb most (utf8_length text)) _ _ (λ _. omega arith)
      λ fits.
        option_rule (IsBounded most) (events_usage loads extract latest (split_events text).0) _ _
          (λ _. tt)
          λ usage _.
            within most (utf8_length text) (utf8_length (split_events text).1) fits
              (rest-Within text).0
