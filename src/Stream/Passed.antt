-- ===== src/Stream/Passed.antt =====
-- The chunks of a stream reach the client as they came, and its end hides an upstream's failure.
use vllm_source_gateway.Base.{
  ◌⊎◌, inl, inr, ℕ, suc, ◌≡◌, refl, ap, List, [], ◌∷◌, ◌++◌, none, some, is_some, Bool, true, false,
  Option, arith, if◌then◌else◌,
}
use vllm_source_gateway.Text.{text_eq}
use vllm_source_gateway.Admission.Controller.{AdmissionLease}
use vllm_source_gateway.Proxy.State.{Gateway, World, await}
use vllm_source_gateway.Stream.State.{
  StreamCall, StreamState, started, gone, interrupted, yielded, closed, Feed, ends, cancelled,
  broken, fails, chunk, exited, raised, finished, Exit,
}
use vllm_source_gateway.Stream.Pump.{
  Pumped, left, parse_chunk, flush, note_first, mark_first, end_loop, disconnected, take_chunk,
  pump, after_yield,
}
use vllm_source_gateway.Stream.Finish.{is_raised, falls_through, finish, run_stream}

-- The chunks that the client is there for.
abbrev pub delivered : Feed → List (List ℕ)
delivered ends = []
delivered cancelled = []
delivered broken = []
delivered fails = []
delivered (chunk bytes gone feed) = []
delivered (chunk bytes interrupted feed) = []
delivered (chunk bytes (closed elapsed) feed) = bytes ∷ []
delivered (chunk bytes (yielded elapsed) feed) = bytes ∷ delivered feed

-- No exception but a cancellation or one of the HTTP client ends the iteration.
abbrev pub has_no_other : Feed → Bool
has_no_other ends = true
has_no_other cancelled = true
has_no_other broken = true
has_no_other fails = false
has_no_other (chunk bytes (yielded elapsed) feed) = has_no_other feed
has_no_other (chunk bytes reception feed) = true

module _ (w : World) (call : StreamCall) where
  -- Parsing raised nothing: neither the usage extractor, nor json.loads anything but a JSONDecodeError.
  abbrev pub parses : StreamState → Feed → Bool
  parses s ends = is_some (flush w call s)
  parses s cancelled = true
  parses s broken = true
  parses s fails = true
  parses s (chunk bytes gone feed) = is_some (flush w call (disconnected s))
  parses s (chunk bytes interrupted feed) = true
  parses s (chunk bytes (closed elapsed) feed) =
      elim (parse_chunk w call (mark_first s bytes) bytes) [ none ↦ false | some parsed ↦ true ]
  parses s (chunk bytes (yielded elapsed) feed) =
      elim (parse_chunk w call (mark_first s bytes) bytes) [
        | none ↦ false
        | some parsed ↦ parses parsed feed
      ]

  -- Nothing of the exception is left, or there was none.
  abbrev pub IsHidden : Pumped → Type 0
  IsHidden p = (if is_raised p.exit then falls_through p.state else false) ≡ false

  -- The chunks went out from the first one on, and all of them where parsing raised nothing; then
  -- no exception is left either, unless one of another kind ended the iteration.
  pub record Passes (clean others : Bool) (all : List (List ℕ)) (p : Pumped) : Type 0 where
    pub rest : List (List ℕ)
    pub in_order : p.sent ++ rest ≡ all
    pub complete : clean ≡ true → rest ≡ []
    pub hidden : clean ≡ true → others ≡ true → IsHidden p

  cut_off-falls_through :
      (s : StreamState)
      → (s.client_disconnected ≡ true) ⊎ (s.stream_failed ≡ true)
      → falls_through s ≡ false
  unfolding falls_through
  cut_off-falls_through s cut = ground (arith, cut)

  left-Passes :
      (clean others : Bool) (exit : Exit) (s : StreamState) (g : Gateway)
      → (clean ≡ true → others ≡ true → IsHidden (left exit s g))
      → Passes clean others [] (left exit s g)
  left-Passes clean others exit s g hidden = record {
    rest = [];
    in_order = refl;
    complete = λ _. refl;
    hidden = hidden;
  }

  end_loop-Passes :
      (others : Bool) (s : StreamState) (g : Gateway)
      → Passes (is_some (flush w call s)) others [] (end_loop w call s g)
  unfolding end_loop
  end_loop-Passes others s g = go (flush w call s)
    where
      go :
          (o : Option StreamState)
          → Passes
              (is_some o)
              others
              []
              (elim o [ none ↦ left raised s g | some flushed ↦ left finished flushed g ])
      go none = left-Passes false others raised s g (λ h. absurd (ground (arith, h)))
      go (some flushed) = left-Passes true others finished flushed g (λ _ _. refl)

  -- A chunk in front of what follows it, or the exception of its parsing.
  taken-Passes :
      (others : Bool) (bytes : List ℕ) (all : List (List ℕ)) (s : StreamState) (h : Gateway)
      (clean : StreamState → Bool) (proceed : StreamState → Pumped) (o : Option StreamState)
      → ((t : StreamState) → Passes (clean t) others all (proceed t))
      → Passes
          (elim o [ none ↦ false | some t ↦ clean t ])
          others
          (bytes ∷ all)
          (elim o [ none ↦ left raised s h | some t ↦ after_yield bytes (proceed t) ])
  taken-Passes others bytes all s h clean proceed none rest = record {
    rest = bytes ∷ all;
    in_order = refl;
    complete = λ h. absurd (ground (arith, h));
    hidden = λ h _. absurd (ground (arith, h));
  }
  taken-Passes others bytes all s h clean proceed (some t) rest =
      let later = rest t in
      record {
        rest = later.rest;
        in_order = ap (λ (sent : List (List ℕ)). bytes ∷ sent) later.in_order;
        complete = later.complete;
        hidden = later.hidden;
      }

  pump-Passes :
      (n : ℕ) (s : StreamState) (g : Gateway) (feed : Feed)
      → Passes (parses s feed) (has_no_other feed) (delivered feed) (pump w call n s g feed)
  unfolding pump take_chunk
  pump-Passes n s g ends = end_loop-Passes true s (await w n g)
  pump-Passes n s g cancelled =
      left-Passes true true raised (disconnected s) (await w n g)
        λ _ _. cut_off-falls_through (disconnected s) (inl refl)
  pump-Passes n s g broken =
      left-Passes true true raised (record s { stream_failed = true }) (await w n g)
        λ _ _. cut_off-falls_through (record s { stream_failed = true }) (inr refl)
  pump-Passes n s g fails =
      left-Passes true false raised s (await w n g) λ _ h. absurd (ground (arith, h))
  pump-Passes n s g (chunk bytes gone feed) = end_loop-Passes true (disconnected s) (await w n g)
  pump-Passes n s g (chunk bytes interrupted feed) =
      left-Passes true true raised (disconnected s) (await w n g)
        λ _ _. cut_off-falls_through (disconnected s) (inl refl)
  pump-Passes n s g (chunk bytes (closed elapsed) feed) =
      let h = note_first call s bytes elapsed (await w n g) in
      taken-Passes true bytes [] (mark_first s bytes) h (λ _. true) (λ t. left exited t h)
        (parse_chunk w call (mark_first s bytes) bytes)
        λ t. left-Passes true true exited t h λ _ _. refl
  pump-Passes n s g (chunk bytes (yielded elapsed) feed) =
      let h = note_first call s bytes elapsed (await w n g) in
      taken-Passes (has_no_other feed) bytes (delivered feed) (mark_first s bytes) h
        (λ t. parses t feed) (λ t. pump w call (suc n) t h feed)
        (parse_chunk w call (mark_first s bytes) bytes) λ t. pump-Passes (suc n) t h feed

-- Where parsing raises nothing and `aclose` returns, no exception leaves the generator, unless the
-- iteration ends with one that is neither a cancellation nor of the HTTP client: a stream that the
-- upstream broke off ends for the server as a complete one does.
pub run_stream-propagates :
    (w : World) (call : StreamCall) (lease : Option AdmissionLease) (n : ℕ) (g : Gateway)
    (feed : Feed)
    → parses w call started feed ≡ true
    → has_no_other feed ≡ true
    → (run_stream w call lease n true g feed).propagates ≡ false
unfolding run_stream finish
run_stream-propagates w call lease n g feed clean h =
    (pump-Passes w call (suc n) started g feed).hidden clean h
