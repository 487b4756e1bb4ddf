-- ===== src/Admission/Caps.antt =====
-- What `check_request_shape` lets through: the request that goes on to the upstream has an output
-- cap within the limit.
use vllm_source_gateway.Base.{
  ℕ, suc, pos, String, ◌≡◌, refl, sym, ap, subst, ◌∙◌, ◌≤◌, Bool, true, false, not, Option, none,
  some, beq, string_eq, arith, if_rule, inl, inr, ◌⊎◌, option_rule, some_inj,
}
use vllm_source_gateway.Dict.{get}
use vllm_source_gateway.Json.{
  Value, Fields, int, get_field, set_field, equals_one, get_field-set_field,
}
use vllm_source_gateway.Http.{ok, Outcome, ok-injective}
use vllm_source_gateway.Admission.Config.{RequestShapeLimitConfig}
use vllm_source_gateway.Admission.Controller.{Controller}
use vllm_source_gateway.Admission.Shape.{
  check_request_shape, check_limit, valid_cap, extract_valid_max_output_tokens, body_too_large,
  bad_output_cap, bad_n, with_default_cap, output_key, reject_shape, request_body_too_large,
  max_output_tokens, n_greater_than_one, ShapeReason,
}
use vllm_source_gateway.Admission.OutputCap.{
  IsCapped, default-IsCapped, caps_of, with_default_cap-present,
}

-- What a request met that was let through under `limit`, and what went on.
record Passed (limit : RequestShapeLimitConfig) (e : String) (body_size : ℕ) (payload p : Fields)
    : Type 0 where
  body : body_too_large limit body_size ≡ false
  cap :
      bad_output_cap limit
        (extract_valid_max_output_tokens payload).0
        (extract_valid_max_output_tokens payload).1
      ≡ false
  single : bad_n limit payload ≡ false
  result : with_default_cap limit e (extract_valid_max_output_tokens payload).0 payload ≡ p

module _ (c : Controller) (d m e : String) (body_size : ℕ) (payload p : Fields)
    (limit : RequestShapeLimitConfig) where
  abbrev IfPassed : Outcome Controller Fields → Type 0
  IfPassed r = r.0 ≡ ok p → Passed limit e body_size payload p

  rejected-IfPassed : (reason : ShapeReason) → IfPassed (reject_shape c d m reason)
  unfolding reject_shape
  rejected-IfPassed reason h = cc

  check_limit-Passed : IfPassed (check_limit c d m e body_size payload limit)
  unfolding check_limit
  check_limit-Passed =
      let caps = extract_valid_max_output_tokens payload in
      if_rule IfPassed (body_too_large limit body_size) _ _
        (λ _. rejected-IfPassed request_body_too_large)
        λ body.
          if_rule IfPassed (bad_output_cap limit caps.0 caps.1) _ _
            (λ _. rejected-IfPassed max_output_tokens)
            λ cap.
              if_rule IfPassed (bad_n limit payload) _ _ (λ _. rejected-IfPassed n_greater_than_one)
                λ single h. record {
                  body = body;
                  cap = cap;
                  single = single;
                  result = ok-injective h;
                }

  check_request_shape-Passed :
      c.config.enabled ≡ true
      → get c.config.request_shape_limits m ≡ some limit
      → IfPassed (check_request_shape c d m e body_size payload)
  unfolding check_request_shape
  check_request_shape-Passed on is_limit =
      if_rule IfPassed (not c.config.enabled) _ _ (λ h. absurd (ground arith))
        λ _.
          option_rule IfPassed (get c.config.request_shape_limits m) _ _
            (λ missing. absurd (ground (arith, missing, is_limit)))
            λ found is_found.
              subst
                (λ (l : RequestShapeLimitConfig).
                  IfPassed (check_limit c d m e body_size payload l))
                (some_inj (sym is_limit ∙ is_found)) check_limit-Passed

-- The value of `n` is 1, if there is one.
abbrev pub IsSingle : Fields → Type 0
IsSingle p = (v : Value) → get_field "n" p ≡ some v → equals_one v ≡ true

-- The default cap touches no other field.
get_field-with_default_cap :
    (limit : RequestShapeLimitConfig) (e : String) (has : Bool) (p : Fields)
    → get_field "n" (with_default_cap limit e has p) ≡ get_field "n" p
unfolding with_default_cap output_key
get_field-with_default_cap limit e has p =
    option_rule (λ q. get_field "n" q ≡ get_field "n" p) limit.max_output_tokens _ _ (λ _. refl)
      λ most _.
        if_rule (λ q. get_field "n" q ≡ get_field "n" p) has _ _ (λ _. refl)
          λ _.
            if_rule (λ key. get_field "n" (set_field key (int (pos most)) p) ≡ get_field "n" p)
              (beq e "responses") _ _
              (λ _. get_field-set_field "max_output_tokens" "n" (int (pos most)) p)
              (λ _. get_field-set_field "max_tokens" "n" (int (pos most)) p)

-- With admission control on and a limit of `most` > 0 output tokens for the model, a request that
-- `check_request_shape` lets through goes on with an output cap: `max_tokens` or
-- `max_output_tokens` is there, and whichever is there is a positive int of at most `most`.
pub check_request_shape-IsCapped :
    (c : Controller) (d m e : String) (body_size : ℕ) (payload p : Fields)
    (limit : RequestShapeLimitConfig) (most : ℕ)
    → c.config.enabled ≡ true
    → get c.config.request_shape_limits m ≡ some limit
    → limit.max_output_tokens ≡ some (suc most)
    → (check_request_shape c d m e body_size payload).0 ≡ ok p
    → IsCapped (suc most) p
check_request_shape-IsCapped c d m e body_size payload p limit most on is_limit has_cap passes =
    let t = check_request_shape-Passed c d m e body_size payload p limit on is_limit passes in
    subst (IsCapped (suc most)) t.result (default-IsCapped limit e payload most has_cap t.cap)

-- With admission control on and a limit for the model that forbids several choices, a request that
-- `check_request_shape` lets through goes on with no `n` or an `n` equal to 1, and its body is not
-- larger than the limit's bound, where it has one.
pub check_request_shape-IsSingle :
    (c : Controller) (d m e : String) (body_size : ℕ) (payload p : Fields)
    (limit : RequestShapeLimitConfig)
    → c.config.enabled ≡ true
    → get c.config.request_shape_limits m ≡ some limit
    → limit.reject_n_greater_than_one ≡ true
    → (check_request_shape c d m e body_size payload).0 ≡ ok p
    → IsSingle p × ((most : ℕ) → limit.max_request_body_bytes ≡ some most → body_size ≤ most)
unfolding bad_n body_too_large
check_request_shape-IsSingle c d m e body_size payload p limit on is_limit strict passes =
    let t = check_request_shape-Passed c d m e body_size payload p limit on is_limit passes in
    let same : get_field "n" p ≡ get_field "n" payload =
      ap (get_field "n") (sym t.result)
      ∙ get_field-with_default_cap limit e (extract_valid_max_output_tokens payload).0 payload in
    (
      (λ v found. ground (arith, t.single, same, found)),
      (λ most bound. ground (arith, t.body, bound)),
    )

module _ (limit : RequestShapeLimitConfig) (most n : ℕ) (v : Value)
    (has_cap : limit.max_output_tokens ≡ some most) (valid : valid_cap v ≡ some n)
    (small : n ≤ most) where
  -- Under either key alone such a value is found, and it is small enough.
  one_cap :
      (a b : Option Value)
      → ((a ≡ some v) × (b ≡ none)) ⊎ ((a ≡ none) × (b ≡ some v))
      → (bad_output_cap limit (caps_of a b).0 (caps_of a b).1 ≡ false) × ((caps_of a b).0 ≡ true)
  unfolding bad_output_cap
  one_cap a b (inl (is_a, is_b)) = ground (arith, is_a, is_b)
  one_cap a b (inr (is_a, is_b)) = ground (arith, is_a, is_b)

-- A cap under the other endpoint's key counts. With admission control on and a limit of `most`
-- output tokens for the model, where neither the body nor `n` is refused: of `max_tokens` and
-- `max_output_tokens`, if one holds a positive int of at most `most` and the other is missing, the
-- request goes on unchanged, whichever of the two the endpoint uses.
pub foreign_cap_passes :
    (c : Controller) (d m e : String) (body_size : ℕ) (payload : Fields)
    (limit : RequestShapeLimitConfig) (most n : ℕ) (v : Value)
    → c.config.enabled ≡ true
    → get c.config.request_shape_limits m ≡ some limit
    → limit.max_output_tokens ≡ some most
    → body_too_large limit body_size ≡ false
    → bad_n limit payload ≡ false
    → valid_cap v ≡ some n
    → n ≤ most
    → ((get_field "max_tokens" payload ≡ some v) × (get_field "max_output_tokens" payload ≡ none))
      ⊎ ((get_field "max_tokens" payload ≡ none) × (get_field "max_output_tokens" payload ≡ some v))
    → (check_request_shape c d m e body_size payload).0 ≡ ok payload
unfolding check_request_shape extract_valid_max_output_tokens
foreign_cap_passes c d m e body_size payload limit most n v on is_limit has_cap body single valid
      small one =
    let cap =
      one_cap limit most n v has_cap valid small (get_field "max_tokens" payload)
        (get_field "max_output_tokens" payload) one in
    let P : Outcome Controller Fields → Type 0 = λ r. r.0 ≡ ok payload in
    if_rule P (not c.config.enabled) _ _ (λ h. absurd (ground arith))
      λ _.
        option_rule P (get c.config.request_shape_limits m) _ _
          (λ missing. absurd (ground (arith, missing, is_limit)))
          λ l found.
            subst (λ (k : RequestShapeLimitConfig). P (check_limit c d m e body_size payload k))
              (some_inj (sym is_limit ∙ found))
              (if_rule P (body_too_large limit body_size) _ _ (λ h. absurd (ground arith))
                λ _.
                  if_rule P
                    (bad_output_cap limit (extract_valid_max_output_tokens payload).0
                      (extract_valid_max_output_tokens payload).1)
                    _ _ (λ h. absurd (ground (arith, cap.0)))
                    λ _.
                      if_rule P (bad_n limit payload) _ _ (λ h. absurd (ground arith))
                        λ _. ap ok (with_default_cap-present limit e _ payload cap.1))
