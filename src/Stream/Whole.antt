-- ===== src/Stream/Whole.antt =====
-- What a stream accounts does not depend on how the upstream cuts it into chunks.
use mathlib.Core.List.{append_assoc, append-nil}
use vllm_source_gateway.Base.{
  ℕ, suc, ◌≡◌, refl, ap, subst, sym, ◌∙◌, List, [], ◌++◌, true, false, Option, none, some,
  option_rule, arith, some_inj,
}
use vllm_source_gateway.Text.{Text}
use vllm_source_gateway.Usage.{UsageTokens}
use vllm_source_gateway.Proxy.State.{Gateway, World, await}
use vllm_source_gateway.Sse.{split_events, events_usage}
use vllm_source_gateway.Sse.Chunks.{consume-prefix, consume-events}
use vllm_source_gateway.Stream.Utf8.{Decoder, between_characters, decode, is_complete}
use vllm_source_gateway.Stream.Decoded.{decode-Parts}
use vllm_source_gateway.Stream.Finish.{settle_accounts, note_usage}
use vllm_source_gateway.Stream.Parsed.{
  Parsed, consume, Fits, Fits-prefix, consume_more, mark_first-Parsed, parse_chunk-Advances,
}
use vllm_source_gateway.Stream.Pump.{
  mark_first, parse_chunk, Pumped, left, end_loop, flush, after_flush, take_chunk, after_yield,
  note_first, pump,
}
use vllm_source_gateway.Stream.State.{
  StreamCall, StreamState, started, gone, interrupted, yielded, closed, Feed, ends, cancelled,
  broken, fails, chunk, raised, finished,
}

-- The bytes of a stream that is delivered to its end.
abbrev pub all_bytes : Feed → Option (List ℕ)
all_bytes ends = some []
all_bytes (chunk bytes (yielded elapsed) feed) = elim (all_bytes feed) [
  | none ↦ none
  | some rest ↦ some (bytes ++ rest)
]
all_bytes _ = none

all_bytes_parts :
    (first : List ℕ) (o : Option (List ℕ)) (bytes : List ℕ)
    → ◌≡◌ {A = Option (List ℕ)}
        (elim o [ none ↦ none | some rest ↦ some (first ++ rest) ])
        (some bytes)
    → (rest : List ℕ) × (o ≡ some rest) × (bytes ≡ first ++ rest)
all_bytes_parts first none bytes e = absurd (ground (arith, e))
all_bytes_parts first (some rest) bytes e = (rest, refl, ground (arith, e))

module _ (w : World) (call : StreamCall) where
  -- The stream came to its end, with that usage and nothing to note instead.
  abbrev pub Ends : Pumped → UsageTokens → Type 0
  Ends p usage =
      (p.state.client_disconnected ≡ false)
      × (p.state.stream_failed ≡ false)
      × (p.state.accounting_status_override ≡ none)
      × (p.state.latest_usage ≡ usage)

  end_loop-Ends :
      (s : StreamState) (t : Text) (g : Gateway) (rest : Text) (usage : UsageTokens)
      → Parsed w call s t
      → is_complete s.decoder ≡ true
      → Fits w call t
      → consume w call [] t none ≡ some (rest, usage, false)
      → Ends (end_loop w call s g) usage
  unfolding end_loop flush after_flush
  end_loop-Ends s t g rest usage parsed complete fits c =
      let whole : t ++ [] ≡ t = append-nil t in
      let flushed : consume w call s.decode_buffer [] s.latest_usage ≡ some (rest, usage, false) =
        consume_more w call s t [] parsed (subst (Fits w call) (sym whole) fits)
        ∙ ap (λ (u : Text). consume w call [] u none) whole
        ∙ c in
      go (flush w call s) (simp (parsed.enabled, parsed.connected, complete, flushed))
    where
      go :
          (o : Option StreamState)
          → o ≡ some (record s { decode_buffer = rest; latest_usage = usage })
          → Ends (elim o [ none ↦ left raised s g | some r ↦ left finished r g ]) usage
      go o e = rw e (parsed.connected, parsed.working, parsed.no_override, refl)

  take_chunk-Ends :
      (s r : StreamState) (bytes : List ℕ) (elapsed : ℕ) (g : Gateway)
      (proceed : StreamState → Gateway → Pumped) (usage : UsageTokens)
      → parse_chunk w call (mark_first s bytes) bytes ≡ some r
      → ((h : Gateway) → Ends (proceed r h) usage)
      → Ends (take_chunk w call s bytes elapsed g proceed) usage
  unfolding take_chunk
  take_chunk-Ends s r bytes elapsed g proceed usage e later =
      option_rule (λ (p : Pumped). Ends p usage) (parse_chunk w call (mark_first s bytes) bytes) _ _
        (λ absent. absurd (ground (arith, e, absent)))
        λ parsed h.
          let same : r ≡ parsed = some_inj (sym e ∙ h) in
          subst
            (λ (q : StreamState).
              Ends (after_yield bytes (proceed q (note_first call s bytes elapsed g))) usage)
            same (later (note_first call s bytes elapsed g))

  -- The rest of a stream: what its bytes decode to goes on with the text so far.
  pump-Ends :
      (n : ℕ) (s : StreamState) (g : Gateway) (feed : Feed) (t : Text) (bytes : List ℕ)
      (more : Text) (d : Decoder) (rest : Text) (usage : UsageTokens)
      → Parsed w call s t
      → all_bytes feed ≡ some bytes
      → decode s.decoder bytes ≡ some (more, d)
      → is_complete d ≡ true
      → Fits w call (t ++ more)
      → consume w call [] (t ++ more) none ≡ some (rest, usage, false)
      → Ends (pump w call n s g feed) usage
  unfolding pump decode
  pump-Ends n s g ends t bytes more d rest usage parsed b e complete fits c =
      let nothing : decode s.decoder [] ≡ some (more, d) =
        subst (λ (bs : List ℕ). decode s.decoder bs ≡ some (more, d)) (sym (some_inj b)) e in
      let same : t ++ more ≡ t = ground (arith, nothing, append-nil t) in
      end_loop-Ends s t (await w n g) rest usage parsed (ground (arith, nothing, complete))
        (subst (Fits w call) same fits)
        (subst (λ (u : Text). consume w call [] u none ≡ some (rest, usage, false)) same c)
  pump-Ends n s g (chunk first (yielded elapsed) feed) t bytes more d rest usage parsed b e complete
        fits c =
      let (later_bytes, b2, whole) = all_bytes_parts first (all_bytes feed) bytes b in
      let (fragment, next, later, e1, e2, text) =
        decode-Parts s.decoder first later_bytes more d
          (subst (λ (bs : List ℕ). decode s.decoder bs ≡ some (more, d)) whole e) in
      let joined : t ++ more ≡ (t ++ fragment) ++ later =
        ap (λ (u : Text). t ++ u) text ∙ sym (append_assoc t fragment later) in
      let fits2 : Fits w call ((t ++ fragment) ++ later) = subst (Fits w call) joined fits in
      let c2 : consume w call [] ((t ++ fragment) ++ later) none ≡ some (rest, usage, false) =
        subst (λ (u : Text). consume w call [] u none ≡ some (rest, usage, false)) joined c in
      let (marked, same) = mark_first-Parsed w call s first t parsed in
      let (r, taken, parsed2, at) =
        parse_chunk-Advances w call (mark_first s first) first t fragment next marked
          (subst (λ (k : Decoder). decode k first ≡ some (fragment, next)) (sym same) e1)
          (Fits-prefix w call (t ++ fragment) later fits2)
          (consume-prefix w.event_loads call.usage_extractor call.max_sse_decode_buffer_bytes
            (t ++ fragment) later none _ (fits2.0) (fits2.1) c2) in
      take_chunk-Ends s r first elapsed (await w n g) (λ q h. pump w call (suc n) q h feed) usage
        taken
        λ h.
          pump-Ends (suc n) r h feed (t ++ fragment) later_bytes later d rest usage parsed2 b2
            (subst (λ (k : Decoder). decode k later_bytes ≡ some (later, d)) (sym at) e2) complete
            fits2 c2
  pump-Ends n s g cancelled t bytes more d rest usage parsed b e complete fits c =
      absurd (ground (arith, b))
  pump-Ends n s g broken t bytes more d rest usage parsed b e complete fits c =
      absurd (ground (arith, b))
  pump-Ends n s g fails t bytes more d rest usage parsed b e complete fits c =
      absurd (ground (arith, b))
  pump-Ends n s g (chunk first gone feed) t bytes more d rest usage parsed b e complete fits c =
      absurd (ground (arith, b))
  pump-Ends n s g (chunk first interrupted feed) t bytes more d rest usage parsed b e complete fits
        c =
      absurd (ground (arith, b))
  pump-Ends n s g (chunk first (closed elapsed) feed) t bytes more d rest usage parsed b e complete
        fits c =
      absurd (ground (arith, b))

-- A stream that is delivered to its end, whose bytes are UTF-8, hold no carriage return and fit into
-- the buffer, and whose events raise nothing in the extractor, settles its accounts with the usage
-- that the events of the whole text report, however the bytes are cut into chunks: the cuts may
-- split a character, a line or an event.
pub pump-whole :
    (w : World) (call : StreamCall) (n : ℕ) (g h : Gateway) (feed : Feed) (bytes : List ℕ)
    (text : Text) (d : Decoder) (usage : UsageTokens)
    → all_bytes feed ≡ some bytes
    → decode between_characters bytes ≡ some (text, d)
    → is_complete d ≡ true
    → Fits w call text
    → events_usage w.event_loads call.usage_extractor none (split_events text).0 ≡ some usage
    → settle_accounts w call (pump w call n started g feed).state h ≡ note_usage w call usage h
unfolding settle_accounts started split_events events_usage
pump-whole w call n g h feed bytes text d usage b e complete fits events =
    let c =
      consume-events w.event_loads call.usage_extractor call.max_sse_decode_buffer_bytes text none
        usage (fits.0) (fits.1) events in
    let parsed : Parsed w call started [] = record {
      enabled = refl;
      no_override = refl;
      connected = refl;
      working = refl;
      consumed =
          consume-events w.event_loads call.usage_extractor call.max_sse_decode_buffer_bytes [] none
            none refl (omega arith) refl;
    } in
    let (connected, working, no_override, reported) =
      pump-Ends w call n started g feed [] bytes text d (split_events text).1 usage parsed b e
        complete fits c in
    simp (connected, working, no_override, reported)
