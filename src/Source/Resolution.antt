-- ===== src/Source/Resolution.antt =====
-- Which requests are attributed to a department.
use vllm_source_gateway.Base.{
  String, ◌≡◌, refl, ap, ◌∙◌, [], ◌∷◌, Option, none, some, false, arith, option_rule, string_eq,
}
use vllm_source_gateway.Dict.{Dict, get}
use vllm_source_gateway.Text.{Text, text_eq}
use vllm_source_gateway.Source.{
  SourceResolutionResult, extract_api_key, resolve_department_for_api_key,
  get_source_resolution_result, is_empty, unknown_department,
}
use vllm_source_gateway.Source.Presents.{
  Presents, extract_api_key-Presents, Presents-solid, Presents-extract_api_key,
}

-- How a request is attributed by the configured keys.
pub record Resolves (keys : Dict Text String) (authorization x_api_key : Option Text)
    (r : SourceResolutionResult) : Type 0 where
  pub known :
      (k : Text) (d : String)
      → Presents authorization x_api_key k
      → get keys k ≡ some d
      → r ≡ record { department = d; api_key = some k; resolution_source = "api_key" }
  pub unregistered :
      (k : Text)
      → Presents authorization x_api_key k
      → get keys k ≡ none
      → r ≡ record {
        department = unknown_department;
        api_key = some k;
        resolution_source = "unknown";
      }
  pub missing :
      ((k : Text) → ¬ Presents authorization x_api_key k)
      → r
        ≡ record { department = unknown_department; api_key = none; resolution_source = "unknown" }
  pub only : (k : Text) → r.api_key ≡ some k → Presents authorization x_api_key k

resolve-known :
    (keys : Dict Text String) (k : Text) (d : String)
    → is_empty k ≡ false
    → get keys k ≡ some d
    → resolve_department_for_api_key keys (some k)
      ≡ record { department = d; api_key = some k; resolution_source = "api_key" }
unfolding resolve_department_for_api_key
resolve-known keys [] d solid found = absurd (ground (arith, solid))
resolve-known keys (c ∷ s) d solid found =
    option_rule
      (λ (r : SourceResolutionResult).
        r ≡ record { department = d; api_key = some (c ∷ s); resolution_source = "api_key" })
      (get keys (c ∷ s)) _ _ (λ absent. absurd (ground (arith, found, absent)))
      λ department h. ground (arith, found, h)

resolve-unregistered :
    (keys : Dict Text String) (k : Text)
    → is_empty k ≡ false
    → get keys k ≡ none
    → resolve_department_for_api_key keys (some k)
      ≡ record { department = unknown_department; api_key = some k; resolution_source = "unknown" }
unfolding resolve_department_for_api_key
resolve-unregistered keys [] solid absent = absurd (ground (arith, solid))
resolve-unregistered keys (c ∷ s) solid absent =
    option_rule
      (λ (r : SourceResolutionResult). r ≡ record {
        department = unknown_department;
        api_key = some (c ∷ s);
        resolution_source = "unknown";
      })
      (get keys (c ∷ s)) _ _ (λ _. refl) λ department h. absurd (ground (arith, absent, h))

-- The key that is passed on is the one that was extracted.
resolve-api_key :
    (keys : Dict Text String) (o : Option Text) (k : Text)
    → (resolve_department_for_api_key keys o).api_key ≡ some k
    → o ≡ some k
unfolding resolve_department_for_api_key
resolve-api_key keys none k h = absurd (ground (arith, h))
resolve-api_key keys (some []) k h = absurd (ground (arith, h))
resolve-api_key keys (some (c ∷ s)) k h =
    option_rule (λ (r : SourceResolutionResult). r.api_key ≡ some k → some (c ∷ s) ≡ some k)
      (get keys (c ∷ s)) _ _ (λ _ e. e) (λ d _ e. e) h

resolve-missing :
    (keys : Dict Text String) (o : Option Text)
    → ((k : Text) → o ≡ some k → ⊥)
    → resolve_department_for_api_key keys o
      ≡ record { department = unknown_department; api_key = none; resolution_source = "unknown" }
unfolding resolve_department_for_api_key
resolve-missing keys none no_key = refl
resolve-missing keys (some k) no_key = absurd (no_key k refl)

-- A request that presents a key of the configuration is attributed to the key's department, with the
-- source "api_key"; one that presents another key, or none, to the unknown department with the source
-- "unknown". The key is passed on exactly where one is presented: X-API-Key counts where it is there
-- and not empty, and otherwise the bearer token of Authorization; a key is stripped and not empty.
pub get_source_resolution_result-Resolves :
    (keys : Dict Text String) (authorization x_api_key : Option Text)
    → Resolves keys authorization x_api_key
        (get_source_resolution_result keys authorization x_api_key)
unfolding get_source_resolution_result
get_source_resolution_result-Resolves keys authorization x_api_key =
    let key = extract_api_key authorization x_api_key in
    record {
      known = λ k d p found.
          ap (resolve_department_for_api_key keys) (Presents-extract_api_key _ _ k p)
          ∙ resolve-known keys k d (Presents-solid _ _ k p) found;
      unregistered = λ k p absent.
          ap (resolve_department_for_api_key keys) (Presents-extract_api_key _ _ k p)
          ∙ resolve-unregistered keys k (Presents-solid _ _ k p) absent;
      missing = λ no_key.
          resolve-missing keys key
            λ k e. no_key k (extract_api_key-Presents authorization x_api_key k e);
      only =
          λ k e. extract_api_key-Presents authorization x_api_key k (resolve-api_key keys key k e);
    }
