-- ===== src/Capacity/Args.antt =====
-- The arguments of the load test, and the payload and the headers of its requests.
use vllm_source_gateway.Base.{
  not, ◌||◌, ◌&&◌, ℕ, ℤ, pos, String, List, [], ◌∷◌, Bool, true, false, any, Option, none, some,
  ◌==◌, beq, leb_ℤ, to_nat, string_eq, if◌then◌else◌,
}
use vllm_source_gateway.Dict.{Dict, empty, put, items}
use vllm_source_gateway.Text.{Text, codes, text_eq, strip}
use vllm_source_gateway.Json.{Value, int, str, bool, arr, obj, Fields, end, field, nil, cons}
use vllm_source_gateway.Source.{is_empty}
use vllm_source_gateway.Config.Names.{strip_keys}
use vllm_source_gateway.Config.Department.{split_commas}

-- What `argparse` is told, or the ValueError of `int`.
pub data ArgumentError : Type 0 where
  not_an_integer no_integer not_positive : ArgumentError
  no_colon empty_model bad_concurrency concurrency_not_positive no_entry : ArgumentError

pub data Parsed (A : Type 0) : Type 0 where
  parsed : A → Parsed A
  refused : ArgumentError → Parsed A

unfoldable pub parse_csv : Text → List Text
unfolding split_commas strip_keys
parse_csv value = strip_keys (split_commas value)

abbrev pub to_nats : List ℤ → List ℕ
to_nats [] = []
to_nats (n ∷ ns) = to_nat n ∷ to_nats ns

abbrev pub positive_levels : List ℤ → Parsed (List ℕ)
positive_levels [] = refused no_integer
positive_levels (n ∷ ns) =
    if any (λ item. leb_ℤ item (pos 0)) (n ∷ ns)
    then refused not_positive
    else parsed (to_nats (n ∷ ns))

module _ (parse_int : Text → Option ℤ) where
  -- [int(item) for item in items]
  unfoldable pub ints : List Text → Option (List ℤ)
  ints [] = some []
  ints (item ∷ items) = elim (parse_int item) [
    | none ↦ none
    | some n ↦ elim (ints items) [ none ↦ none | some ns ↦ some (n ∷ ns) ]
  ]

  unfoldable pub parse_int_csv : Text → Parsed (List ℕ)
  unfolding ints parse_csv
  parse_int_csv value = elim (ints (parse_csv value)) [
    | none ↦ refused not_an_integer
    | some levels ↦ positive_levels levels
  ]

  -- item.rsplit(":", 1), where there is a colon
  unfoldable pub rsplit_colon : Text → Option (Text × Text)
  rsplit_colon [] = none
  rsplit_colon (c ∷ s) = elim (rsplit_colon s) [
    | some (front, back) ↦ some (c ∷ front, back)
    | none ↦ if c == b':' then some ([], s) else none
  ]

  -- The checks of an entry, and what follows a good one.
  unfoldable pub parse_entry : Text → Parsed (Text × ℕ)
  unfolding rsplit_colon strip
  parse_entry item = elim (rsplit_colon item) [
    | none ↦ refused no_colon
    | some (model, concurrency_text) ↦
        if is_empty (strip model) then refused empty_model else elim (parse_int concurrency_text) [
          | none ↦ refused bad_concurrency
          | some concurrency ↦
              if leb_ℤ concurrency (pos 0)
              then refused concurrency_not_positive
              else parsed (strip model, to_nat concurrency)
        ]
  ]

  unfoldable pub parse_entries : List Text → Dict Text ℕ → Parsed (Dict Text ℕ)
  unfolding parse_entry
  parse_entries [] entries = parsed entries
  parse_entries (item ∷ rest) entries = elim (parse_entry item) [
    | refused error ↦ refused error
    | parsed (model, concurrency) ↦ parse_entries rest (put entries model concurrency)
  ]

  abbrev some_entries : Dict Text ℕ → Parsed (Dict Text ℕ)
  some_entries entries = elim (items entries) [ [] ↦ refused no_entry | e ∷ es ↦ parsed entries ]

  unfoldable pub parse_mixed_models : Text → Parsed (Dict Text ℕ)
  unfolding parse_entries parse_csv items empty
  parse_mixed_models value = elim (parse_entries (parse_csv value) empty) [
    | refused error ↦ refused error
    | parsed entries ↦ some_entries entries
  ]

-- [{"role": "user", "content": prompt}]
abbrev user_messages : String → Value
user_messages prompt =
    arr (cons (obj (field "role" (str "user") (field "content" (str prompt) end))) nil)

-- `none` is the ValueError.
unfoldable pub build_payload : (path model prompt : String) → (max_tokens : ℕ) → Option Fields
build_payload path model prompt max_tokens =
    let tokens = int (pos max_tokens) in
    let chat = field "model" (str model) (
      field "messages" (user_messages prompt)
        (field "max_tokens" tokens (field "stream" (bool true) end))) in
    if beq path "chat"
    then some chat
    else if beq path "responses"
    then some (
        field "model" (str model) (
          field "input" (str prompt)
            (field "max_output_tokens" tokens (field "stream" (bool true) end))))
    else if beq path "messages"
    then some chat
    else none

unfoldable pub build_headers : (path api_key : String) → List (String × String)
build_headers path api_key =
    ("content-type", "application/json")
    ∷ ("x-api-key", api_key)
    ∷ (if beq path "messages" then ("anthropic-version", "2023-06-01") ∷ [] else [])

-- The arguments that `validate_args` reads; an empty text or dict counts as missing.
pub record Arguments : Type 0 where
  pub api_key : Option Text
  pub model : Option Text
  pub mixed_models : Option (Dict Text ℕ)
  pub requests_per_level : ℤ
  pub paths : List Text

pub data ArgumentExit : Type 0 where
  missing_api_key missing_model requests_not_positive unsupported_paths : ArgumentExit

abbrev is_missing : Option Text → Bool
is_missing none = true
is_missing (some s) = is_empty s

abbrev has_no_items : List (Text × ℕ) → Bool
has_no_items [] = true
has_no_items (e ∷ es) = false

abbrev is_unmixed : Option (Dict Text ℕ) → Bool
is_unmixed none = true
is_unmixed (some entries) = has_no_items (items entries)

-- path not in PATH_TO_ENDPOINT
abbrev is_unsupported : Text → Bool
is_unsupported path =
    not (beq path (codes "chat") || beq path (codes "responses") || beq path (codes "messages"))

-- The SystemExit that is raised, if one is.
unfoldable pub validate_args : Arguments → Option ArgumentExit
unfolding items
validate_args args =
    if is_missing args.api_key
    then some missing_api_key
    else if is_missing args.model && is_unmixed args.mixed_models
    then some missing_model
    else if leb_ℤ args.requests_per_level (pos 0)
    then some requests_not_positive
    else if any is_unsupported args.paths
    then some unsupported_paths
    else none
