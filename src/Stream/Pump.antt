-- ===== src/Stream/Pump.antt =====
-- The `try` of `_stream_bytes`: the loop over the chunks, with the parser of the events.
use vllm_source_gateway.Base.{
  ℕ, suc, List, [], ◌∷◌, Bool, true, false, not, ◌&&◌, Option, none, some, if◌then◌else◌,
}
use vllm_source_gateway.Text.{Text}
use vllm_source_gateway.Metrics.{observe_stream_first_chunk}
use vllm_source_gateway.Usage.{UsageTokens}
use vllm_source_gateway.Sse.{consume_sse_events}
use vllm_source_gateway.Proxy.State.{Gateway, World, with_metrics, await}
use vllm_source_gateway.Stream.Utf8.{decode, is_complete}
use vllm_source_gateway.Stream.State.{
  StreamCall, StreamState, gone, interrupted, yielded, closed, Feed, ends, cancelled, broken, fails,
  chunk, Exit, finished, exited, raised,
}

-- if chunk
abbrev pub is_nonempty : List ℕ → Bool
is_nonempty [] = false
is_nonempty (b ∷ bytes) = true

unfoldable pub parse_error : StreamState → StreamState
parse_error s = record s {
  parsing_enabled = false;
  accounting_status_override = some "parse_error";
}

-- After `_consume_sse_events`: `none` where the extractor raised.
unfoldable pub after_events : StreamState → Option (Text × UsageTokens × Bool) → Option StreamState
unfolding parse_error
after_events s none = none
after_events s (some (buffer, usage, buffer_overflowed)) =
    if buffer_overflowed
    then some (parse_error (record s { decode_buffer = []; latest_usage = usage }))
    else some (record s { decode_buffer = buffer; latest_usage = usage })

-- if parsing_enabled and chunk: ...
unfoldable pub parse_chunk : World → StreamCall → StreamState → List ℕ → Option StreamState
unfolding after_events parse_error decode consume_sse_events
parse_chunk w call s bytes =
    if not (s.parsing_enabled && is_nonempty bytes) then some s else elim (decode s.decoder bytes) [
      | none ↦ some (parse_error s)
      | some (fragment, decoder) ↦
          after_events (record s { decoder = decoder })
            (consume_sse_events w.event_loads call.usage_extractor call.max_sse_decode_buffer_bytes
              s.decode_buffer fragment s.latest_usage)
    ]

-- The end of the iteration: the decoder is flushed. An overflow sets the override only.
unfoldable pub after_flush : StreamState → Option (Text × UsageTokens × Bool) → Option StreamState
after_flush s none = none
after_flush s (some (buffer, usage, buffer_overflowed)) =
    let flushed = record s { decode_buffer = buffer; latest_usage = usage } in
    if buffer_overflowed
    then some (record flushed { accounting_status_override = some "parse_error" })
    else some flushed

unfoldable pub flush : World → StreamCall → StreamState → Option StreamState
unfolding after_flush parse_error is_complete consume_sse_events
flush w call s =
    if not (s.parsing_enabled && not s.client_disconnected)
    then some s
    else if not (is_complete s.decoder)
    then some (parse_error s)
    else after_flush s (
        consume_sse_events w.event_loads call.usage_extractor call.max_sse_decode_buffer_bytes
          s.decode_buffer [] s.latest_usage)

-- The first chunk that is not empty is observed.
unfoldable pub is_first : StreamState → List ℕ → Bool
is_first s bytes = is_nonempty bytes && not s.first_chunk_recorded

unfoldable pub note_first : StreamCall → StreamState → List ℕ → (elapsed : ℕ) → Gateway → Gateway
unfolding is_first with_metrics observe_stream_first_chunk
note_first call s bytes elapsed g =
    if is_first s bytes
    then with_metrics g
        (λ m. observe_stream_first_chunk m call.department call.model_name call.endpoint elapsed)
    else g

unfoldable pub mark_first : StreamState → List ℕ → StreamState
unfolding is_first
mark_first s bytes = if is_first s bytes then record s { first_chunk_recorded = true } else s

-- How the `try` was left, with which variables, and what was yielded.
pub record Pumped : Type 0 where
  pub exit : Exit
  pub state : StreamState
  pub sent : List (List ℕ)
  pub gateway : Gateway

abbrev pub left : Exit → StreamState → Gateway → Pumped
left exit s g = record { exit = exit; state = s; sent = []; gateway = g }

-- The statements behind the loop.
unfoldable pub end_loop : World → StreamCall → StreamState → Gateway → Pumped
unfolding flush
end_loop w call s g = elim (flush w call s) [
  | none ↦ left raised s g
  | some flushed ↦ left finished flushed g
]

abbrev pub disconnected : StreamState → StreamState
disconnected s = record s { client_disconnected = true }

-- A chunk that is yielded, in front of what comes after.
abbrev pub after_yield : List ℕ → Pumped → Pumped
after_yield bytes p = record p { sent = bytes ∷ p.sent }

-- A chunk that the client is there for, before the `yield`.
unfoldable pub take_chunk :
    World
    → StreamCall
    → StreamState
    → List ℕ
    → (elapsed : ℕ) → Gateway
    → (proceed : StreamState → Gateway → Pumped) → Pumped
unfolding note_first mark_first parse_chunk
take_chunk w call s bytes elapsed g proceed =
    let h = note_first call s bytes elapsed g in
    elim (parse_chunk w call (mark_first s bytes) bytes) [
      | none ↦ left raised (mark_first s bytes) h
      | some parsed ↦ after_yield bytes (proceed parsed h)
    ]

-- The loop; `n` counts its rounds, the awaits of a round as one.
unfoldable pub pump : World → StreamCall → (n : ℕ) → StreamState → Gateway → Feed → Pumped
unfolding end_loop take_chunk await
pump w call n s g ends = end_loop w call s (await w n g)
pump w call n s g cancelled = left raised (disconnected s) (await w n g)
pump w call n s g broken = left raised (record s { stream_failed = true }) (await w n g)
pump w call n s g fails = left raised s (await w n g)
pump w call n s g (chunk bytes gone feed) = end_loop w call (disconnected s) (await w n g)
pump w call n s g (chunk bytes interrupted feed) = left raised (disconnected s) (await w n g)
pump w call n s g (chunk bytes (closed elapsed) feed) =
    take_chunk w call s bytes elapsed (await w n g) (λ parsed h. left exited parsed h)
pump w call n s g (chunk bytes (yielded elapsed) feed) =
    take_chunk w call s bytes elapsed (await w n g) (λ parsed h. pump w call (suc n) parsed h feed)
