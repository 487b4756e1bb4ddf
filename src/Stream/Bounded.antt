-- ===== src/Stream/Bounded.antt =====
-- The memory that the parser of a stream takes is bounded.
use vllm_source_gateway.Base.{
  subst, ℕ, suc, ◌≤◌, List, [], Bool, true, false, Option, none, some, not, ◌&&◌, if_rule,
  option_rule, arith,
}
use vllm_source_gateway.Text.{Text}
use vllm_source_gateway.Usage.{UsageTokens}
use vllm_source_gateway.Proxy.State.{Gateway, World, await}
use vllm_source_gateway.Sse.{utf8_length}
use vllm_source_gateway.Sse.Bounded.{IsBounded, consume_sse_events-IsBounded}
use vllm_source_gateway.Stream.Utf8.{decode, is_complete}
use vllm_source_gateway.Stream.State.{
  StreamCall, StreamState, started, gone, interrupted, yielded, closed, Feed, ends, cancelled,
  broken, fails, chunk, exited,
}
use vllm_source_gateway.Stream.Pump.{
  Pumped, left, is_nonempty, is_first, mark_first, parse_error, after_events, parse_chunk,
  after_flush, flush, end_loop, disconnected, take_chunk, note_first, pump,
}

module _ (w : World) (call : StreamCall) where
  -- The buffer takes no more bytes than the setting allows.
  abbrev pub Holds : StreamState → Type 0
  Holds s = utf8_length s.decode_buffer ≤ call.max_sse_decode_buffer_bytes

  abbrev HoldsIf : Option StreamState → Type 0
  HoldsIf none = Unit
  HoldsIf (some s) = Holds s

  after_events-Holds :
      (s : StreamState) (o : Option (Text × UsageTokens × Bool))
      → IsBounded call.max_sse_decode_buffer_bytes o
      → HoldsIf (after_events s o)
  unfolding after_events parse_error
  after_events-Holds s none h = tt
  after_events-Holds s (some (buffer, usage, true)) h = omega arith
  after_events-Holds s (some (buffer, usage, false)) h = h

  parse_chunk-Holds :
      (s : StreamState) (bytes : List ℕ) → Holds s → HoldsIf (parse_chunk w call s bytes)
  unfolding parse_chunk parse_error
  parse_chunk-Holds s bytes h =
      if_rule HoldsIf (not (s.parsing_enabled && is_nonempty bytes)) _ _ (λ _. h)
        λ _.
          option_rule HoldsIf (decode s.decoder bytes) _ _ (λ _. h)
            λ decoded _.
              after_events-Holds (record s { decoder = decoded.1 }) _
                (consume_sse_events-IsBounded w.event_loads call.usage_extractor
                  call.max_sse_decode_buffer_bytes s.decode_buffer (decoded.0) s.latest_usage)

  after_flush-Holds :
      (s : StreamState) (o : Option (Text × UsageTokens × Bool))
      → IsBounded call.max_sse_decode_buffer_bytes o
      → HoldsIf (after_flush s o)
  unfolding after_flush
  after_flush-Holds s none h = tt
  after_flush-Holds s (some (buffer, usage, true)) h = h
  after_flush-Holds s (some (buffer, usage, false)) h = h

  flush-Holds : (s : StreamState) → Holds s → HoldsIf (flush w call s)
  unfolding flush parse_error
  flush-Holds s h =
      if_rule HoldsIf (not (s.parsing_enabled && not s.client_disconnected)) _ _ (λ _. h)
        λ _.
          if_rule HoldsIf (not (is_complete s.decoder)) _ _ (λ _. h)
            λ _. after_flush-Holds s _ (
              consume_sse_events-IsBounded w.event_loads call.usage_extractor
                call.max_sse_decode_buffer_bytes s.decode_buffer [] s.latest_usage)

  end_loop-Holds : (s : StreamState) (g : Gateway) → Holds s → Holds (end_loop w call s g).state
  unfolding end_loop
  end_loop-Holds s g h =
      option_rule (λ (p : Pumped). Holds p.state) (flush w call s) _ _ (λ _. h)
        λ r e. subst HoldsIf e (flush-Holds s h)

  mark_first-Holds : (s : StreamState) (bytes : List ℕ) → Holds s → Holds (mark_first s bytes)
  unfolding mark_first
  mark_first-Holds s bytes h = if_rule Holds (is_first s bytes) _ _ (λ _. h) λ _. h

  take_chunk-Holds :
      (s : StreamState) (bytes : List ℕ) (elapsed : ℕ) (g : Gateway)
      (proceed : StreamState → Gateway → Pumped)
      → Holds s
      → ((t : StreamState) (k : Gateway) → Holds t → Holds (proceed t k).state)
      → Holds (take_chunk w call s bytes elapsed g proceed).state
  unfolding take_chunk
  take_chunk-Holds s bytes elapsed g proceed h rest =
      let marked = mark_first-Holds s bytes h in
      option_rule (λ (p : Pumped). Holds p.state) (parse_chunk w call (mark_first s bytes) bytes) _
        _ (λ _. marked)
        λ parsed e.
          rest parsed (note_first call s bytes elapsed g)
            (subst HoldsIf e (parse_chunk-Holds (mark_first s bytes) bytes marked))

  pump-Holds :
      (n : ℕ) (s : StreamState) (g : Gateway) (feed : Feed)
      → Holds s
      → Holds (pump w call n s g feed).state
  unfolding pump
  pump-Holds n s g ends h = end_loop-Holds s (await w n g) h
  pump-Holds n s g cancelled h = h
  pump-Holds n s g broken h = h
  pump-Holds n s g fails h = h
  pump-Holds n s g (chunk bytes gone feed) h = end_loop-Holds (disconnected s) (await w n g) h
  pump-Holds n s g (chunk bytes interrupted feed) h = h
  pump-Holds n s g (chunk bytes (closed elapsed) feed) h =
      take_chunk-Holds s bytes elapsed (await w n g) (λ t k. left exited t k) h λ t k hold. hold
  pump-Holds n s g (chunk bytes (yielded elapsed) feed) h =
      take_chunk-Holds s bytes elapsed (await w n g) (λ t k. pump w call (suc n) t k feed) h
        λ t k hold. pump-Holds (suc n) t k feed hold

-- At the end of every stream, and so after any number of its chunks, the text that the parser has
-- kept for an event without an end takes at most max_sse_decode_buffer_bytes bytes, whatever the
-- upstream sends.
pub pump-started-Holds :
    (w : World) (call : StreamCall) (n : ℕ) (g : Gateway) (feed : Feed)
    → utf8_length (pump w call n started g feed).state.decode_buffer
      ≤ call.max_sse_decode_buffer_bytes
unfolding started
pump-started-Holds w call n g feed = pump-Holds w call n started g feed (omega arith)
