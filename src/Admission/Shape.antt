-- ===== src/Admission/Shape.antt =====
-- `check_request_shape`: limits on the body, the output tokens and `n`, and the default output cap.
use vllm_source_gateway.Base.{
  ℕ, pos, suc, String, Bool, true, false, ◌&&◌, not, List, [], ◌∷◌, Option, none, some, max, ltb,
  beq, string_eq, if◌then◌else◌, is_some, or_default,
}
use vllm_source_gateway.Dict.{get}
use vllm_source_gateway.Json.{Value, Fields, int, get_field, set_field, equals_one}
use vllm_source_gateway.Http.{ok, raises, Outcome, plain_error}
use vllm_source_gateway.Admission.Config.{RequestShapeLimitConfig}
use vllm_source_gateway.Admission.Controller.{Controller, record_rejection}

-- The keys of `_SHAPE_ERROR_STATUS` and `_SHAPE_ERROR_DETAIL`.
pub data ShapeReason : Type 0 where
  request_body_too_large max_output_tokens n_greater_than_one : ShapeReason

unfoldable pub reason_label : ShapeReason → String
reason_label request_body_too_large = "request_body_too_large"
reason_label max_output_tokens = "max_output_tokens"
reason_label n_greater_than_one = "n_greater_than_one"

unfoldable pub shape_error_status : ShapeReason → ℕ
shape_error_status request_body_too_large = 413
shape_error_status max_output_tokens = 422
shape_error_status n_greater_than_one = 422

unfoldable pub shape_error_detail : ShapeReason → String
shape_error_detail request_body_too_large = "request body too large"
shape_error_detail max_output_tokens = "max output tokens limit exceeded or invalid"
shape_error_detail n_greater_than_one = "n greater than one is not allowed"

unfoldable pub reject_shape :
    Controller → (department model_name : String) → ShapeReason → Outcome Controller Fields
unfolding reason_label shape_error_status shape_error_detail
reject_shape c department model_name reason = (
  raises (plain_error (shape_error_status reason) (shape_error_detail reason)),
  record_rejection c department model_name (reason_label reason),
)

-- A positive int that is no bool.
unfoldable pub valid_cap : Value → Option ℕ
valid_cap (int (pos (suc n))) = some (suc n)
valid_cap _ = none

-- The loop over the two keys: `best` is the largest value so far, none while `values` is empty.
unfoldable pub extract_caps : List String → Fields → Option ℕ → Bool × Option ℕ
unfolding valid_cap
extract_caps [] payload best = (is_some best, best)
extract_caps (key ∷ keys) payload best = elim (get_field key payload) [
  | none ↦ extract_caps keys payload best
  | some value ↦ elim (valid_cap value) [
    | none ↦ (true, none)
    | some n ↦ extract_caps keys payload (some (max n (or_default best 0)))
  ]
]

unfoldable pub extract_valid_max_output_tokens : Fields → Bool × Option ℕ
unfolding extract_caps
extract_valid_max_output_tokens payload =
    extract_caps ("max_tokens" ∷ "max_output_tokens" ∷ []) payload none

-- body_size > limit.max_request_body_bytes, where the limit has one
unfoldable pub body_too_large : RequestShapeLimitConfig → ℕ → Bool
body_too_large limit body_size = elim limit.max_request_body_bytes [
  | none ↦ false
  | some most ↦ ltb most body_size
]

-- The two tests under `if limit.max_output_tokens is not None`, on the pair that
-- `_extract_valid_max_output_tokens` returned.
unfoldable pub bad_output_cap : RequestShapeLimitConfig → Bool → Option ℕ → Bool
bad_output_cap limit has_output_cap cap = elim limit.max_output_tokens [
  | none ↦ false
  | some most ↦ elim cap [ none ↦ has_output_cap | some n ↦ ltb most n ]
]

-- limit.reject_n_greater_than_one and payload.get("n", 1) != 1
unfoldable pub bad_n : RequestShapeLimitConfig → Fields → Bool
bad_n limit payload =
    limit.reject_n_greater_than_one
    && elim (get_field "n" payload) [ none ↦ false | some v ↦ not (equals_one v) ]

unfoldable pub output_key : String → String
output_key endpoint = if beq endpoint "responses" then "max_output_tokens" else "max_tokens"

-- The cap that is put into a request that has none.
unfoldable pub with_default_cap : RequestShapeLimitConfig → String → Bool → Fields → Fields
unfolding output_key
with_default_cap limit endpoint has_output_cap payload = elim limit.max_output_tokens [
  | none ↦ payload
  | some most ↦
      if has_output_cap then payload else set_field (output_key endpoint) (int (pos most)) payload
]

unfoldable pub check_limit :
    Controller
    → (department model_name endpoint : String) (body_size : ℕ) → Fields
    → RequestShapeLimitConfig
    → Outcome Controller Fields
unfolding body_too_large bad_output_cap bad_n with_default_cap reject_shape
check_limit c department model_name endpoint body_size payload limit =
    let (has_output_cap, cap) = extract_valid_max_output_tokens payload in
    if body_too_large limit body_size
    then reject_shape c department model_name request_body_too_large
    else if bad_output_cap limit has_output_cap cap
    then reject_shape c department model_name max_output_tokens
    else if bad_n limit payload
    then reject_shape c department model_name n_greater_than_one
    else (ok (with_default_cap limit endpoint has_output_cap payload), c)

unfoldable pub check_request_shape :
    Controller
    → (department model_name endpoint : String) (body_size : ℕ) → Fields
    → Outcome Controller Fields
unfolding check_limit
check_request_shape c department model_name endpoint body_size payload =
    if not c.config.enabled
    then (ok payload, c)
    else elim (get c.config.request_shape_limits model_name) [
      | none ↦ (ok payload, c)
      | some limit ↦ check_limit c department model_name endpoint body_size payload limit
    ]
