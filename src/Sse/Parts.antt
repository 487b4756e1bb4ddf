-- ===== src/Sse/Parts.antt =====
-- How the events of a text and its rest go on with what follows the text.

use vllm_source_gateway.Base.{
  ℕ, ◌≡◌, refl, sym, ap, ◌∙◌, ◌≤◌, [], ◌∷◌, ◌++◌, Bool, true, false, ◌==◌, arith, if_rule,
  if◌then◌else◌, any, ◌||◌, ◌⊎◌, inl, inr,
}
use vllm_source_gateway.Text.{Text}
use vllm_source_gateway.Sse.{utf8_length, replace_crlf, Split, in_front, close_event, split_events}

-- The events of a text and of what follows its rest.
abbrev pub and_then_split : Split → Text → Split
and_then_split (events, rest) more =
    (events ++ (split_events (rest ++ more)).0, (split_events (rest ++ more)).1)

-- Where a text has no event, its rest is the text.
in_front-no_event :
    (c : ℕ) (t : Text) (p : Split)
    → (p.0 ≡ [] → p.1 ≡ t)
    → (in_front c p).0 ≡ []
    → (in_front c p).1 ≡ c ∷ t
in_front-no_event c t ([], rest) same h = ap (λ (r : Text). c ∷ r) (same refl)
in_front-no_event c t (e ∷ es, rest) same h = absurd (ground (arith, h))

no_event : (s : Text) → (split_events s).0 ≡ [] → (split_events s).1 ≡ s
unfolding split_events
no_event [] h = refl
no_event (c ∷ []) h = refl
no_event (c ∷ d ∷ s) h =
    let P : Split → Type 0 = λ p. p.0 ≡ [] → p.1 ≡ c ∷ d ∷ s in
    let front = in_front-no_event c (d ∷ s) (split_events (d ∷ s)) (no_event (d ∷ s)) in
    if_rule P (c == 10) _ _
      (λ _. if_rule P (d == 10) _ _ (λ _ k. absurd (ground (arith, k))) (λ _. front)) (λ _. front) h

in_front-append :
    (c : ℕ) (t more : Text) (p : Split)
    → (p.0 ≡ [] → p.1 ≡ t)
    → split_events (t ++ more) ≡ and_then_split p more
    → split_events (c ∷ (t ++ more)) ≡ in_front c (split_events (t ++ more))
    → in_front c (split_events (t ++ more)) ≡ and_then_split (in_front c p) more
in_front-append c t more ([], rest) same later whole =
    sym whole ∙ ap (λ (r : Text). split_events (c ∷ (r ++ more))) (sym (same refl))
in_front-append c t more (e ∷ es, rest) same later whole = rw later refl

-- One step, from the same for the two shorter texts.
pair-append :
    (c d : ℕ) (s more : Text)
    → split_events (s ++ more) ≡ and_then_split (split_events s) more
    → split_events ((d ∷ s) ++ more) ≡ and_then_split (split_events (d ∷ s)) more
    → split_events ((c ∷ d ∷ s) ++ more) ≡ and_then_split (split_events (c ∷ d ∷ s)) more
unfolding split_events
pair-append c d s more behind later = go (c == 10) (d == 10) refl refl
  where
    whole_text : Bool → Bool → Text → Split
    whole_text a b t =
        if a
        then (if b then close_event (split_events t) else in_front c (split_events (d ∷ t)))
        else in_front c (split_events (d ∷ t))

    front :
        ((c == 10) ≡ false) ⊎ ((d == 10) ≡ false)
        → in_front c (split_events (d ∷ (s ++ more)))
          ≡ and_then_split (in_front c (split_events (d ∷ s))) more
    front other =
        in_front-append c (d ∷ s) more (split_events (d ∷ s)) (no_event (d ∷ s)) later
          (ground (arith, other))

    go :
        (a b : Bool)
        → (c == 10) ≡ a
        → (d == 10) ≡ b
        → whole_text a b (s ++ more) ≡ and_then_split (whole_text a b s) more
    go true true e f = ap close_event behind
    go true false e f = front (inr f)
    go false b e f = front (inl e)

pub split_events-append :
    (s more : Text) → split_events (s ++ more) ≡ and_then_split (split_events s) more
unfolding split_events
split_events-append [] more = refl
split_events-append (c ∷ []) more = refl
split_events-append (c ∷ d ∷ s) more =
    pair-append c d s more (split_events-append s more) (split_events-append (d ∷ s) more)

-- No carriage return.
abbrev pub has_cr : Text → Bool
has_cr = any (λ c. c == 13)

pub replace_crlf_same : (s : Text) → has_cr s ≡ false → replace_crlf s ≡ s
unfolding replace_crlf
replace_crlf_same [] h = refl
replace_crlf_same (c ∷ []) h = refl
replace_crlf_same (c ∷ d ∷ s) h = ground (arith, h, replace_crlf_same (d ∷ s))

pub has_cr-append : (s t : Text) → has_cr (s ++ t) ≡ (has_cr s || has_cr t)
has_cr-append [] t = refl
has_cr-append (c ∷ s) t = ground (arith, has_cr-append s t)

-- The rest of a text is no longer than the text, and has a carriage return only if that has one.
abbrev pub Within : Text → Text → Type 0
Within rest s = (utf8_length rest ≤ utf8_length s) × (has_cr s ≡ false → has_cr rest ≡ false)

in_front-Within : (c : ℕ) (t : Text) (p : Split) → Within p.1 t → Within (in_front c p).1 (c ∷ t)
in_front-Within c t ([], rest) w = (omega (arith, w.0), λ h. ground (arith, h, w.1))
in_front-Within c t (e ∷ es, rest) w = (omega (arith, w.0), λ h. ground (arith, h, w.1))

pub rest-Within : (s : Text) → Within (split_events s).1 s
unfolding split_events
rest-Within [] = (omega arith, λ h. h)
rest-Within (c ∷ []) = (omega arith, λ h. h)
rest-Within (c ∷ d ∷ s) =
    let P : Split → Type 0 = λ p. Within p.1 (c ∷ d ∷ s) in
    let front = in_front-Within c (d ∷ s) (split_events (d ∷ s)) (rest-Within (d ∷ s)) in
    let behind = rest-Within s in
    if_rule P (c == 10) _ _
      (λ _.
        if_rule P (d == 10) _ _ (λ _. (omega (arith, behind.0), λ h. ground (arith, h, behind.1)))
          (λ _. front))
      (λ _. front)
