-- ===== src/Config/Presented.antt =====
-- A configured API key, presented in a request, is attributed to its department.
use vllm_source_gateway.Base.{
  String, ◌≡◌, refl, ap, subst, ◌∙◌, List, [], ◌∷◌, ◌++◌, true, false, beq, Option, none, some,
  if_rule, option_rule, arith, Bool-cases, inl, inr,
}
use vllm_source_gateway.Dict.{Dict, get, items}
use vllm_source_gateway.Text.{Text, codes, text_eq, strip}
use vllm_source_gateway.Text.Strip.{strip-strip}
use vllm_source_gateway.Source.{
  SourceResolutionResult, is_empty, extract_api_key, bearer_value, resolve_department_for_api_key,
  get_source_resolution_result, partition,
}
use vllm_source_gateway.Config.Names.{strip_keys}
use vllm_source_gateway.Config.Validated.{
  ValidationError, Validated, valid, invalid, and_validate, no_api_key,
}
use vllm_source_gateway.Config.Department.{
  Environment, DepartmentConfig, declared_keys, nonempty_keys, validate_api_keys,
}
use vllm_source_gateway.Config.App.{AppConfig, validate_unique_constraints}
use vllm_source_gateway.Config.Keys.{key_in, WhenValid, declares}
use vllm_source_gateway.Config.Mapped.{validate_unique_constraints-declares}

-- A key that is stripped and not empty.
abbrev IsKey : Text → Type 0
IsKey k = (strip k ≡ k) × (is_empty k ≡ false)

strip_keys-IsKey : (k : Text) (values : List Text) → key_in k (strip_keys values) ≡ true → IsKey k
unfolding strip_keys
strip_keys-IsKey k [] h = absurd (ground (arith, h))
strip_keys-IsKey k (s ∷ values) member =
    if_rule (λ (keys : List Text). key_in k keys ≡ true → IsKey k) (is_empty (strip s)) _ _
      (λ _ h. strip_keys-IsKey k values h)
      (λ solid h. elim (Bool-cases (beq (strip s) k)) [
        | inl same ↦
            let e : strip s ≡ k = (text_eq.test_iff (strip s) k).0 same in
            subst IsKey e (strip-strip s, solid)
        | inr other ↦ strip_keys-IsKey k values (ground (arith, h, other))
      ])
      member

nonempty_keys-IsKey :
    (error : ValidationError) (values : List Text) (k : Text)
    → WhenValid (λ keys. key_in k keys ≡ true → IsKey k) (nonempty_keys error values)
unfolding nonempty_keys
nonempty_keys-IsKey error values k = go (strip_keys values) (strip_keys-IsKey k values)
  where
    go :
        (stripped : List Text)
        → (key_in k stripped ≡ true → IsKey k)
        → WhenValid {A = List Text}
            (λ keys. key_in k keys ≡ true → IsKey k)
            (elim stripped [ [] ↦ invalid error | key ∷ keys ↦ valid (key ∷ keys) ])
    go [] f = tt
    go (key ∷ keys) f = f

validate_api_keys-IsKey :
    (env : Environment) (d : DepartmentConfig) (k : Text)
    → WhenValid (λ keys. key_in k keys ≡ true → IsKey k) (validate_api_keys env d)
unfolding validate_api_keys
validate_api_keys-IsKey env d k = go (declared_keys env d)
  where
    go :
        (o : Validated (List Text))
        → WhenValid
            (λ keys. key_in k keys ≡ true → IsKey k)
            (and_validate o λ keys. nonempty_keys no_api_key keys)
    go (valid keys) = nonempty_keys-IsKey no_api_key keys k
    go (invalid error) = tt

extract_x_api_key :
    (authorization : Option Text) (presented k : Text)
    → strip presented ≡ k
    → is_empty k ≡ false
    → extract_api_key authorization (some presented) ≡ some k
unfolding extract_api_key strip
extract_x_api_key authorization [] k same solid = absurd (ground (arith, same, solid))
extract_x_api_key authorization (c ∷ s) k same solid = rw (same, solid) refl

extract_bearer :
    (presented k : Text)
    → strip presented ≡ k
    → is_empty k ≡ false
    → extract_api_key (some (codes "Bearer " ++ presented)) none ≡ some k
unfolding extract_api_key bearer_value partition
extract_bearer presented k same solid = rw (same, solid) refl

resolved :
    (mapping : Dict Text String) (k : Text) (d : String)
    → is_empty k ≡ false
    → get mapping k ≡ some d
    → resolve_department_for_api_key mapping (some k)
      ≡ record { department = d; api_key = some k; resolution_source = "api_key" }
unfolding resolve_department_for_api_key
resolved mapping [] d solid found = absurd (ground (arith, solid))
resolved mapping (c ∷ s) d solid found =
    option_rule
      (λ (r : SourceResolutionResult).
        r ≡ record { department = d; api_key = some (c ∷ s); resolution_source = "api_key" })
      (get mapping (c ∷ s)) _ _ (λ absent. absurd (ground (arith, found, absent)))
      λ department h. ground (arith, found, h)

abbrev attributed : String → Text → SourceResolutionResult
attributed d k = record { department = d; api_key = some k; resolution_source = "api_key" }

-- An API key that is among the validated ones of a department of a valid configuration is
-- recognised when a client presents it, with or without spaces around it, in X-API-Key, whatever
-- Authorization holds, or as a bearer token where there is no X-API-Key: the request is attributed
-- to the department by the key.
pub validate_api_keys-get_source_resolution_result :
    (env : Environment) (declared : DepartmentConfig) (keys : List Text) (config : AppConfig)
    (mapping : Dict Text String) (k presented : Text) (d : String) (authorization : Option Text)
    → validate_api_keys env declared ≡ valid keys
    → key_in k keys ≡ true
    → validate_unique_constraints config ≡ valid mapping
    → declares (items config.departments) k d ≡ true
    → strip presented ≡ k
    → (get_source_resolution_result mapping authorization (some presented) ≡ attributed d k)
      × (get_source_resolution_result mapping (some (codes "Bearer " ++ presented)) none
          ≡ attributed d k)
unfolding get_source_resolution_result
validate_api_keys-get_source_resolution_result env declared keys config mapping k presented d
      authorization valid_keys member valid_config has same =
    let (_, solid) =
      subst (WhenValid (λ keys. key_in k keys ≡ true → IsKey k)) valid_keys
        (validate_api_keys-IsKey env declared k) member in
    let found = (validate_unique_constraints-declares config mapping k d valid_config).1 has in
    (
      ap (resolve_department_for_api_key mapping)
            (extract_x_api_key authorization presented k same solid)
          ∙ resolved mapping k d solid found,
      ap (resolve_department_for_api_key mapping) (extract_bearer presented k same solid)
          ∙ resolved mapping k d solid found,
    )
