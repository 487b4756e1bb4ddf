-- ===== src/Text/Strip.antt =====
-- A stripped text is stripped.
use vllm_source_gateway.Base.{ℕ, ◌≡◌, refl, ap, ◌∙◌, [], ◌∷◌, Bool, true, not, if_rule, arith}
use vllm_source_gateway.Text.{Text, is_space, lstrip, rstrip_cons, rstrip, strip}

-- No space at the start.
abbrev starts_solid : Text → Bool
starts_solid [] = true
starts_solid (c ∷ s) = not (is_space c)

lstrip-starts_solid : (s : Text) → starts_solid (lstrip s) ≡ true
unfolding lstrip
lstrip-starts_solid [] = refl
lstrip-starts_solid (c ∷ s) =
    if_rule (λ (t : Text). starts_solid t ≡ true) (is_space c) _ _ (λ _. lstrip-starts_solid s)
      λ solid. ground (arith, solid)

rstrip_cons-starts_solid :
    (c : ℕ) (t : Text) → not (is_space c) ≡ true → starts_solid (rstrip_cons c t) ≡ true
unfolding rstrip_cons
rstrip_cons-starts_solid c [] h = ground (arith, h)
rstrip_cons-starts_solid c (d ∷ t) h = h

rstrip-starts_solid : (s : Text) → starts_solid s ≡ true → starts_solid (rstrip s) ≡ true
unfolding rstrip
rstrip-starts_solid [] h = h
rstrip-starts_solid (c ∷ s) h = rstrip_cons-starts_solid c (rstrip s) h

lstrip_same : (s : Text) → starts_solid s ≡ true → lstrip s ≡ s
unfolding lstrip
lstrip_same [] h = refl
lstrip_same (c ∷ s) h = ground (arith, h)

rstrip_cons_same : (c : ℕ) (t : Text) → rstrip t ≡ t → rstrip (rstrip_cons c t) ≡ rstrip_cons c t
unfolding rstrip rstrip_cons
rstrip_cons_same c [] h =
    if_rule (λ (u : Text). rstrip u ≡ u) (is_space c) _ _ (λ _. refl) λ solid. rw solid refl
rstrip_cons_same c (d ∷ t) h = ap (rstrip_cons c) h

rstrip-rstrip : (s : Text) → rstrip (rstrip s) ≡ rstrip s
unfolding rstrip
rstrip-rstrip [] = refl
rstrip-rstrip (c ∷ s) = rstrip_cons_same c (rstrip s) (rstrip-rstrip s)

pub strip-strip : (s : Text) → strip (strip s) ≡ strip s
unfolding strip
strip-strip s =
    ap rstrip
      (lstrip_same (rstrip (lstrip s)) (rstrip-starts_solid (lstrip s) (lstrip-starts_solid s)))
    ∙ rstrip-rstrip (lstrip s)
