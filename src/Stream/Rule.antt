-- ===== src/Stream/Rule.antt =====
-- What every await and every observed first chunk respects, the whole loop respects.
use vllm_source_gateway.Base.{ℕ, suc, List, option_rule}
use vllm_source_gateway.Proxy.State.{Gateway, World, await}
use vllm_source_gateway.Stream.State.{
  StreamCall, StreamState, gone, interrupted, yielded, closed, Feed, ends, cancelled, broken, fails,
  chunk, exited,
}
use vllm_source_gateway.Stream.Pump.{
  Pumped, left, note_first, mark_first, parse_chunk, flush, end_loop, disconnected, take_chunk,
  pump,
}

module _ (w : World) (call : StreamCall) (R : Gateway → Gateway → Type 0)
    (stays : (g : Gateway) → R g g) (chains : (g h k : Gateway) → R g h → R h k → R g k)
    (awaits : (n : ℕ) (g : Gateway) → R g (await w n g))
    (notes : (s : StreamState) (bytes : List ℕ) (elapsed : ℕ) (g : Gateway)
      → R g (note_first call s bytes elapsed g)) where
  end_loop_rule : (s : StreamState) (g : Gateway) → R g (end_loop w call s g).gateway
  unfolding end_loop
  end_loop_rule s g =
      option_rule (λ (p : Pumped). R g p.gateway) (flush w call s) _ _ (λ _. stays g)
        λ flushed _. stays g

  take_chunk_rule :
      (s : StreamState) (bytes : List ℕ) (elapsed : ℕ) (g : Gateway)
      (proceed : StreamState → Gateway → Pumped)
      → ((t : StreamState) (h : Gateway) → R h (proceed t h).gateway)
      → R g (take_chunk w call s bytes elapsed g proceed).gateway
  unfolding take_chunk
  take_chunk_rule s bytes elapsed g proceed rest =
      let h = note_first call s bytes elapsed g in
      let noted = notes s bytes elapsed g in
      option_rule (λ (p : Pumped). R g p.gateway) (parse_chunk w call (mark_first s bytes) bytes) _
        _ (λ _. noted) λ parsed _. chains _ _ _ noted (rest parsed h)

  pub pump_rule :
      (n : ℕ) (s : StreamState) (g : Gateway) (feed : Feed) → R g (pump w call n s g feed).gateway
  unfolding pump
  pump_rule n s g ends = chains _ _ _ (awaits n g) (end_loop_rule s (await w n g))
  pump_rule n s g cancelled = awaits n g
  pump_rule n s g broken = awaits n g
  pump_rule n s g fails = awaits n g
  pump_rule n s g (chunk bytes gone feed) =
      chains _ _ _ (awaits n g) (end_loop_rule (disconnected s) (await w n g))
  pump_rule n s g (chunk bytes interrupted feed) = awaits n g
  pump_rule n s g (chunk bytes (closed elapsed) feed) =
      chains _ _ _ (awaits n g)
        (take_chunk_rule s bytes elapsed (await w n g) (λ t h. left exited t h) λ t h. stays h)
  pump_rule n s g (chunk bytes (yielded elapsed) feed) = chains _ _ _ (awaits n g) (
      take_chunk_rule s bytes elapsed (await w n g) (λ t h. pump w call (suc n) t h feed)
        λ t h. pump_rule (suc n) t h feed)
