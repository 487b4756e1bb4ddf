-- ===== src/Sse/Chunks.antt =====
-- The usage of a stream does not depend on how its text is cut into fragments.
use mathlib.Core.List.{append_assoc}
use vllm_source_gateway.Base.{
  ℕ, ◌≡◌, refl, sym, ap, subst, ◌∙◌, ◌≤◌, List, [], ◌∷◌, ◌++◌, Bool, true, false, Option, none,
  some, ltb, sum-append, arith, if◌then◌else◌,
}
use vllm_source_gateway.Text.{Text}
use vllm_source_gateway.Json.{Loads}
use vllm_source_gateway.Usage.{UsageTokens, UsageExtractor}
use vllm_source_gateway.Sse.{
  utf8_bytes, utf8_length, split_events, event_usage, events_usage, consume_normalized,
  consume_sse_events,
}
use vllm_source_gateway.Sse.Parts.{
  split_events-append, has_cr, replace_crlf_same, has_cr-append, rest-Within,
}

-- What follows a usage, where the extractor did not raise.
abbrev then_usage : {A : Type 0} → Option UsageTokens → (UsageTokens → Option A) → Option A
then_usage none k = none
then_usage (some usage) k = k usage

abbrev Consumed : Type 0
Consumed = Option (Text × UsageTokens × Bool)

module _ (loads : Text → Loads) (extract : UsageExtractor) where
  then_usage-append :
      (o : Option UsageTokens) (xs ys : List Text)
      → ((u : UsageTokens)
          → events_usage loads extract u (xs ++ ys)
            ≡ then_usage (events_usage loads extract u xs) (λ v. events_usage loads extract v ys))
      → then_usage o (λ u. events_usage loads extract u (xs ++ ys))
        ≡ then_usage
            (then_usage o (λ u. events_usage loads extract u xs))
            (λ v. events_usage loads extract v ys)
  then_usage-append none xs ys later = refl
  then_usage-append (some u) xs ys later = later u

  events_usage-cons :
      (latest : UsageTokens) (x : Text) (xs : List Text)
      → events_usage loads extract latest (x ∷ xs)
        ≡ then_usage (event_usage loads extract latest x) (λ u. events_usage loads extract u xs)
  unfolding events_usage
  events_usage-cons latest x xs = go (event_usage loads extract latest x)
    where
      go :
          (o : Option UsageTokens)
          → ◌≡◌ {A = Option UsageTokens}
              (elim o [ none ↦ none | some u ↦ events_usage loads extract u xs ])
              (then_usage o (λ u. events_usage loads extract u xs))
      go none = refl
      go (some u) = refl

  events_usage-append :
      (latest : UsageTokens) (xs ys : List Text)
      → events_usage loads extract latest (xs ++ ys)
        ≡ then_usage (events_usage loads extract latest xs) (λ v. events_usage loads extract v ys)
  unfolding events_usage
  events_usage-append latest [] ys = refl
  events_usage-append latest (x ∷ xs) ys =
      rw (events_usage-cons latest x (xs ++ ys), events_usage-cons latest x xs)
        (then_usage-append (event_usage loads extract latest x) xs ys
          λ u. events_usage-append u xs ys)

  module _ (most : ℕ) where
    -- A call with its text in one piece.
    abbrev consume_text : Text → UsageTokens → Consumed
    consume_text s latest =
        then_usage (events_usage loads extract latest (split_events s).0)
          (λ usage. some ((split_events s).1, usage, false))

    normalized-text :
        (s : Text) (latest : UsageTokens)
        → utf8_length s ≤ most
        → consume_normalized loads extract most s latest ≡ consume_text s latest
    unfolding consume_normalized
    normalized-text s latest fits =
        go (ltb most (utf8_length s)) (events_usage loads extract latest (split_events s).0)
          (ground (arith, fits))
      where
        go :
            (over : Bool) (o : Option UsageTokens)
            → over ≡ false
            → ◌≡◌ {A = Consumed}
                (if over then some ([], latest, true) else elim o [
                  | none ↦ none
                  | some usage ↦ some ((split_events s).1, usage, false)
                ])
                (then_usage o (λ usage. some ((split_events s).1, usage, false)))
        go true o h = absurd (ground (arith, h))
        go false none h = refl
        go false (some u) h = refl

    consume-text :
        (buffer fragment : Text) (latest : UsageTokens)
        → has_cr (buffer ++ fragment) ≡ false
        → utf8_length (buffer ++ fragment) ≤ most
        → consume_sse_events loads extract most buffer fragment latest
          ≡ consume_text (buffer ++ fragment) latest
    unfolding consume_sse_events
    consume-text buffer fragment latest plain fits =
        ap (λ (t : Text). consume_normalized loads extract most t latest)
          (replace_crlf_same (buffer ++ fragment) plain)
        ∙ normalized-text (buffer ++ fragment) latest fits

    -- The call with the next fragment, on the buffer and the usage that a call returned.
    abbrev pub consume_next : Text → Consumed → Consumed
    consume_next fragment none = none
    consume_next fragment (some (buffer, usage, overflowed)) =
        consume_sse_events loads extract most buffer fragment usage

    -- The result of a call on the whole, from that on its first part.
    next-text :
        (s more : Text) (latest : UsageTokens) (o : Option UsageTokens)
        → events_usage loads extract latest (split_events s).0 ≡ o
        → ((u : UsageTokens)
            → consume_sse_events loads extract most (split_events s).1 more u
              ≡ consume_text ((split_events s).1 ++ more) u)
        → consume_next more (then_usage o (λ usage. some ((split_events s).1, usage, false)))
          ≡ consume_text (s ++ more) latest
    next-text s more latest none e next = sym (
        rw (split_events-append s more) (
          rw
            (events_usage-append latest (split_events s).0
              (split_events ((split_events s).1 ++ more)).0)
            (rw e refl)))
    next-text s more latest (some u) e next =
        next u
        ∙ sym (
            rw (split_events-append s more) (
              rw
                (events_usage-append latest (split_events s).0
                  (split_events ((split_events s).1 ++ more)).0)
                (rw e refl)))

-- Where the text of a stream has no carriage return and fits into the buffer, it does not matter how
-- it is cut: a call with one fragment and then one with the next leave the buffer and the usage, or
-- raise, as one call with both does.
pub consume_sse_events-append :
    (loads : Text → Loads) (extract : UsageExtractor) (most : ℕ) (buffer fragment more : Text)
    (latest : UsageTokens)
    → has_cr ((buffer ++ fragment) ++ more) ≡ false
    → utf8_length ((buffer ++ fragment) ++ more) ≤ most
    → consume_next loads extract most more
        (consume_sse_events loads extract most buffer fragment latest)
      ≡ consume_sse_events loads extract most buffer (fragment ++ more) latest
consume_sse_events-append loads extract most buffer fragment more latest plain fits =
    let s = buffer ++ fragment in
    let rest = (split_events s).1 in
    let w = rest-Within s in
    let whole : s ++ more ≡ buffer ++ (fragment ++ more) = append_assoc buffer fragment more in
    let first_plain : has_cr s ≡ false = ground (arith, plain, has_cr-append s more) in
    let rest_plain : has_cr (rest ++ more) ≡ false =
      ground (arith, plain, has_cr-append s more, has_cr-append rest more, w.1) in
    let first_fits : utf8_length s ≤ most = omega (arith, fits, sum-append utf8_bytes s more) in
    let rest_fits : utf8_length (rest ++ more) ≤ most =
      omega (arith, fits, sum-append utf8_bytes s more, sum-append utf8_bytes rest more, w.0) in
    ap (consume_next loads extract most more)
      (consume-text loads extract most buffer fragment latest first_plain first_fits)
    ∙ next-text loads extract most s more latest _ refl
        (λ u. consume-text loads extract most rest more u rest_plain rest_fits)
    ∙ ap (λ (t : Text). consume_text loads extract most t latest) whole
    ∙ sym (
        consume-text loads extract most buffer (fragment ++ more) latest
          (subst (λ (t : Text). has_cr t ≡ false) whole plain)
          (subst (λ (t : Text). utf8_length t ≤ most) whole fits))

consume-text-fits :
    (loads : Text → Loads) (extract : UsageExtractor) (most : ℕ) (s : Text) (latest : UsageTokens)
    (buffer : Text) (usage : UsageTokens) (overflowed : Bool)
    → has_cr s ≡ false
    → utf8_length s ≤ most
    → consume_sse_events loads extract most [] s latest ≡ some (buffer, usage, overflowed)
    → overflowed ≡ false
consume-text-fits loads extract most s latest buffer usage overflowed plain fits e =
    go (events_usage loads extract latest (split_events s).0)
      (sym (consume-text loads extract most [] s latest plain fits) ∙ e)
  where
    go :
        (o : Option UsageTokens)
        → ◌≡◌ {A = Consumed}
            (then_usage o (λ u. some ((split_events s).1, u, false)))
            (some (buffer, usage, overflowed))
        → overflowed ≡ false
    go none h = absurd (ground (arith, h))
    go (some u) h = ground (arith, h)

-- A text whose continuation is parsed without an exception is parsed so itself.
pub consume-prefix :
    (loads : Text → Loads) (extract : UsageExtractor) (most : ℕ) (s more : Text)
    (latest : UsageTokens) (r : Text × UsageTokens × Bool)
    → has_cr (s ++ more) ≡ false
    → utf8_length (s ++ more) ≤ most
    → consume_sse_events loads extract most [] (s ++ more) latest ≡ some r
    → (buffer : Text) × (usage : UsageTokens) × (consume_sse_events loads extract most [] s latest
        ≡ some (buffer, usage, false))
consume-prefix loads extract most s more latest r plain fits e =
    go (consume_sse_events loads extract most [] s latest) refl
      (consume_sse_events-append loads extract most [] s more latest plain fits ∙ e)
  where
    go :
        (o : Consumed)
        → consume_sse_events loads extract most [] s latest ≡ o
        → consume_next loads extract most more o ≡ some r
        → (buffer : Text) × (usage : UsageTokens) × (o ≡ some (buffer, usage, false))
    go none h k = absurd (ground (arith, k))
    go (some (buffer, usage, overflowed)) h k =
        let over : overflowed ≡ false =
          consume-text-fits loads extract most s latest buffer usage overflowed
            (ground (arith, plain, has_cr-append s more))
            (omega (arith, fits, sum-append utf8_bytes s more)) h in
        (buffer, usage, ap (λ (b : Bool). some (buffer, usage, b)) over)

-- A text that fits is parsed with the usage of its events.
pub consume-events :
    (loads : Text → Loads) (extract : UsageExtractor) (most : ℕ) (s : Text)
    (latest usage : UsageTokens)
    → has_cr s ≡ false
    → utf8_length s ≤ most
    → events_usage loads extract latest (split_events s).0 ≡ some usage
    → consume_sse_events loads extract most [] s latest ≡ some ((split_events s).1, usage, false)
consume-events loads extract most s latest usage plain fits e =
    consume-text loads extract most [] s latest plain fits
    ∙ ap (λ (o : Option UsageTokens). then_usage o (λ u. some ((split_events s).1, u, false))) e
