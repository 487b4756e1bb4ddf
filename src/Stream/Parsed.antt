-- ===== src/Stream/Parsed.antt =====
-- The state of a stream in which everything so far was parsed.
use mathlib.Core.List.{append-nil}
use vllm_source_gateway.Base.{
  ℕ, ◌≡◌, refl, ap, subst, sym, ◌∙◌, ◌≤◌, List, [], ◌∷◌, ◌++◌, Bool, true, false, Option, none,
  some, if_rule, arith, sum-append,
}
use vllm_source_gateway.Text.{Text}
use vllm_source_gateway.Usage.{UsageTokens}
use vllm_source_gateway.Proxy.State.{World}
use vllm_source_gateway.Sse.{utf8_bytes, utf8_length, consume_sse_events}
use vllm_source_gateway.Sse.Parts.{has_cr, has_cr-append}
use vllm_source_gateway.Sse.Chunks.{consume_next, consume_sse_events-append}
use vllm_source_gateway.Stream.Utf8.{Decoder, decode}
use vllm_source_gateway.Stream.Pump.{is_first, mark_first, parse_chunk, after_events}
use vllm_source_gateway.Stream.State.{StreamCall, StreamState}

-- A state in which the text `t` was parsed, and nothing went wrong.
pub record Parsed (w : World) (call : StreamCall) (s : StreamState) (t : Text) : Type 0 where
  pub enabled : s.parsing_enabled ≡ true
  pub no_override : s.accounting_status_override ≡ none
  pub connected : s.client_disconnected ≡ false
  pub working : s.stream_failed ≡ false
  pub consumed :
      consume_sse_events w.event_loads call.usage_extractor call.max_sse_decode_buffer_bytes [] t
        none
      ≡ some (s.decode_buffer, s.latest_usage, false)

module _ (w : World) (call : StreamCall) where
  abbrev pub consume : Text → Text → UsageTokens → Option (Text × UsageTokens × Bool)
  consume = consume_sse_events w.event_loads call.usage_extractor call.max_sse_decode_buffer_bytes

  -- The text has no carriage return and fits into the buffer.
  abbrev pub Fits : Text → Type 0
  Fits t = (has_cr t ≡ false) × (utf8_length t ≤ call.max_sse_decode_buffer_bytes)

  pub consume_more :
      (s : StreamState) (t fragment : Text)
      → Parsed w call s t
      → Fits (t ++ fragment)
      → consume s.decode_buffer fragment s.latest_usage ≡ consume [] (t ++ fragment) none
  consume_more s t fragment parsed fits =
      ap (consume_next w.event_loads call.usage_extractor call.max_sse_decode_buffer_bytes fragment)
        (sym parsed.consumed)
      ∙ consume_sse_events-append w.event_loads call.usage_extractor
          call.max_sse_decode_buffer_bytes [] t fragment none (fits.0) (fits.1)

  pub Fits-prefix : (t more : Text) → Fits (t ++ more) → Fits t
  Fits-prefix t more fits = (
    ground (arith, fits.0, has_cr-append t more),
    omega (arith, fits.1, sum-append utf8_bytes t more),
  )

  pub mark_first-Parsed :
      (s : StreamState) (bytes : List ℕ) (t : Text)
      → Parsed w call s t
      → Parsed w call (mark_first s bytes) t × ((mark_first s bytes).decoder ≡ s.decoder)
  unfolding mark_first
  mark_first-Parsed s bytes t parsed =
      if_rule (λ (r : StreamState). Parsed w call r t × (r.decoder ≡ s.decoder)) (is_first s bytes)
        _ _
        (λ _. (
          record {
            enabled = parsed.enabled;
            no_override = parsed.no_override;
            connected = parsed.connected;
            working = parsed.working;
            consumed = parsed.consumed;
          },
          refl,
        ))
        λ _. (parsed, refl)

  -- After the next chunk, the text and that of the chunk were parsed.
  abbrev pub Advances : StreamState → List ℕ → Text → Decoder → Type 0
  Advances s bytes t d =
      (r : StreamState) × (parse_chunk w call s bytes ≡ some r)
      × Parsed w call r t
      × (r.decoder ≡ d)

  parse_chunk-some :
      (s : StreamState) (b : ℕ) (bs : List ℕ) (fragment : Text) (d : Decoder) (buffer : Text)
      (usage : UsageTokens)
      → s.parsing_enabled ≡ true
      → decode s.decoder (b ∷ bs) ≡ some (fragment, d)
      → consume s.decode_buffer fragment s.latest_usage ≡ some (buffer, usage, false)
      → parse_chunk w call s (b ∷ bs)
        ≡ some (record s { decoder = d; decode_buffer = buffer; latest_usage = usage })
  unfolding parse_chunk after_events
  parse_chunk-some s b bs fragment d buffer usage enabled e c = simp (enabled, e, c)

  pub parse_chunk-Advances :
      (s : StreamState) (bytes : List ℕ) (t fragment : Text) (d : Decoder)
      → Parsed w call s t
      → decode s.decoder bytes ≡ some (fragment, d)
      → Fits (t ++ fragment)
      → (buffer : Text) × (usage : UsageTokens) × (consume [] (t ++ fragment) none
          ≡ some (buffer, usage, false))
      → Advances s bytes (t ++ fragment) d
  unfolding parse_chunk decode
  parse_chunk-Advances s [] t fragment d parsed e fits c =
      let same : t ≡ t ++ fragment = ground (arith, e, append-nil t) in
      (
        s,
        rw parsed.enabled refl,
        subst (λ (u : Text). Parsed w call s u) same parsed,
        ground (arith, e),
      )
  parse_chunk-Advances s (b ∷ bs) t fragment d parsed e fits (buffer, usage, c) =
      let r : StreamState = record s {
        decoder = d;
        decode_buffer = buffer;
        latest_usage = usage;
      } in
      (
        r,
        parse_chunk-some s b bs fragment d buffer usage parsed.enabled e
            (consume_more s t fragment parsed fits ∙ c),
        record {
          enabled = parsed.enabled;
          no_override = parsed.no_override;
          connected = parsed.connected;
          working = parsed.working;
          consumed = c;
        },
        refl,
      )
