-- ===== src/Admission/OutputCap.antt =====
-- The output caps of a request, and what the default cap makes of them.
use vllm_source_gateway.Base.{
  ℕ, suc, pos, String, ◌≡◌, refl, ◌∙◌, ◌≤◌, Bool, true, false, ◌||◌, Option, none, some, max, beq,
  string_eq, arith, if_rule, is_some, inl, inr, ◌⊎◌, or_default,
}
use vllm_source_gateway.Json.{
  Value, Fields, int, get_field, set_field, has_field, get_field-set_field,
}
use vllm_source_gateway.Admission.Config.{RequestShapeLimitConfig}
use vllm_source_gateway.Admission.Shape.{
  valid_cap, extract_valid_max_output_tokens, bad_output_cap, with_default_cap, output_key,
}

-- A value that stands for at most `most` tokens, if there is one.
abbrev pub IsWithin : ℕ → Option Value → Type 0
IsWithin most none = Unit {0}
IsWithin most (some v) = (n : ℕ) × (valid_cap v ≡ some n) × (n ≤ most)

-- Both keys that can hold an output cap are within the limit, and one of them is there.
pub record IsCapped (most : ℕ) (p : Fields) : Type 0 where
  pub tokens_within : IsWithin most (get_field "max_tokens" p)
  pub output_within : IsWithin most (get_field "max_output_tokens" p)
  pub present : (has_field "max_tokens" p || has_field "max_output_tokens" p) ≡ true

-- The default cap is put under a key that then is within the limit.
set_tokens-IsCapped :
    (p : Fields) (most : ℕ)
    → get_field "max_output_tokens" p ≡ none
    → IsCapped (suc most) (set_field "max_tokens" (int (pos (suc most))) p)
unfolding valid_cap
set_tokens-IsCapped p most absent =
    let v : Value = int (pos (suc most)) in
    let here : get_field "max_tokens" (set_field "max_tokens" v p) ≡ some v =
      get_field-set_field "max_tokens" "max_tokens" v p in
    let there : get_field "max_output_tokens" (set_field "max_tokens" v p) ≡ none =
      get_field-set_field "max_tokens" "max_output_tokens" v p ∙ absent in
    record {
      tokens_within = rw here (suc most, refl, omega arith);
      output_within = rw there tt;
      present = rw here;
    }

set_output-IsCapped :
    (p : Fields) (most : ℕ)
    → get_field "max_tokens" p ≡ none
    → IsCapped (suc most) (set_field "max_output_tokens" (int (pos (suc most))) p)
unfolding valid_cap
set_output-IsCapped p most absent =
    let v : Value = int (pos (suc most)) in
    let here : get_field "max_output_tokens" (set_field "max_output_tokens" v p) ≡ some v =
      get_field-set_field "max_output_tokens" "max_output_tokens" v p in
    let there : get_field "max_tokens" (set_field "max_output_tokens" v p) ≡ none =
      get_field-set_field "max_output_tokens" "max_tokens" v p ∙ absent in
    record {
      tokens_within = rw there tt;
      output_within = rw here (suc most, refl, omega arith);
      present = rw (there, here);
    }

set-IsCapped :
    (p : Fields) (most : ℕ) (endpoint : String)
    → get_field "max_tokens" p ≡ none
    → get_field "max_output_tokens" p ≡ none
    → IsCapped (suc most) (set_field (output_key endpoint) (int (pos (suc most))) p)
unfolding output_key
set-IsCapped p most endpoint no_tokens no_output =
    if_rule (λ key. IsCapped (suc most) (set_field key (int (pos (suc most))) p))
      (beq endpoint "responses") _ _ (λ _. set_output-IsCapped p most no_tokens)
      (λ _. set_tokens-IsCapped p most no_output)

-- The loop over the two keys as a function of what they hold.
abbrev next_cap : Option Value → Option ℕ → (Option ℕ → Bool × Option ℕ) → Bool × Option ℕ
next_cap o best next = elim o [
  | none ↦ next best
  | some v ↦ elim (valid_cap v) [
    | none ↦ (true, none)
    | some n ↦ next (some (max n (or_default best 0)))
  ]
]

abbrev pub caps_of : Option Value → Option Value → Bool × Option ℕ
caps_of a b = next_cap a none λ best. next_cap b best λ best'. (is_some best', best')

pub extract-caps_of :
    (p : Fields)
    → extract_valid_max_output_tokens p
      ≡ caps_of (get_field "max_tokens" p) (get_field "max_output_tokens" p)
unfolding extract_valid_max_output_tokens
extract-caps_of p = refl

caps-IsWithin :
    (limit : RequestShapeLimitConfig) (most : ℕ) (a b : Option Value)
    → limit.max_output_tokens ≡ some most
    → bad_output_cap limit (caps_of a b).0 (caps_of a b).1 ≡ false
    → ((a ≡ none) × (b ≡ none) × ((caps_of a b).0 ≡ false))
      ⊎ (IsWithin most a
          × IsWithin most b
          × ((is_some a || is_some b) ≡ true)
          × ((caps_of a b).0 ≡ true))
unfolding bad_output_cap
caps-IsWithin limit most none none is_limit fits = inl (refl, refl, refl)
caps-IsWithin limit most none (some w) is_limit fits = inr (ground arith)
caps-IsWithin limit most (some v) none is_limit fits = inr (ground arith)
caps-IsWithin limit most (some v) (some w) is_limit fits = inr (ground arith)

with_default_cap-absent :
    (limit : RequestShapeLimitConfig) (endpoint : String) (has : Bool) (p : Fields) (most : ℕ)
    → limit.max_output_tokens ≡ some most
    → has ≡ false
    → with_default_cap limit endpoint has p ≡ set_field (output_key endpoint) (int (pos most)) p
unfolding with_default_cap
with_default_cap-absent limit endpoint has p most is_limit absent = ground (arith, is_limit, absent)

pub with_default_cap-present :
    (limit : RequestShapeLimitConfig) (endpoint : String) (has : Bool) (p : Fields)
    → has ≡ true
    → with_default_cap limit endpoint has p ≡ p
unfolding with_default_cap
with_default_cap-present limit endpoint has p present = ground (arith, present)

pub default-IsCapped :
    (limit : RequestShapeLimitConfig) (endpoint : String) (p : Fields) (most : ℕ)
    → limit.max_output_tokens ≡ some (suc most)
    → bad_output_cap limit
        (extract_valid_max_output_tokens p).0
        (extract_valid_max_output_tokens p).1
      ≡ false
    → IsCapped (suc most) (with_default_cap limit endpoint (extract_valid_max_output_tokens p).0 p)
unfolding extract_valid_max_output_tokens
default-IsCapped limit endpoint p most is_limit fits =
    let a = get_field "max_tokens" p in
    let b = get_field "max_output_tokens" p in
    elim (caps-IsWithin limit (suc most) a b is_limit fits) [
      | inl (no_a, no_b, absent) ↦
          rw (with_default_cap-absent limit endpoint _ p (suc most) is_limit absent)
            (set-IsCapped p most endpoint no_a no_b)
      | inr (within_a, within_b, one, present) ↦
          rw (with_default_cap-present limit endpoint _ p present)
            (record { tokens_within = within_a; output_within = within_b; present = one })
    ]
