-- ===== src/Json.antt =====
-- Values that `json.loads` yields, and the dict operations that the gateway applies to them. A
-- float is its IEEE 754 bit pattern: the only test on it is equality with the integer 1.
use vllm_source_gateway.Base.{
  ℕ, ℤ, pos, String, Bool, true, false, Option, none, some, beq, ◌==◌, eqb_ℤ, if◌then◌else◌, ◌≡◌,
  refl, is_some, arith, string_eq,
}

mutual
  pub data Value : Type 0 where
    null : Value
    bool : Bool → Value
    int : ℤ → Value
    float : ℕ → Value
    str : String → Value
    arr : Items → Value
    obj : Fields → Value

  pub data Fields : Type 0 where
    end : Fields
    field : String → Value → Fields → Fields

  pub data Items : Type 0 where
    nil : Items
    cons : Value → Items → Items

-- What `json.loads` comes to: a value, a JSONDecodeError, another ValueError (a text that is no UTF-8, an
-- integer of too many digits), or a RecursionError, which is no ValueError.
pub data Loads : Type 0 where
  loads_value : Value → Loads
  decode_error value_error recursion_error : Loads

-- What holds of each case of a call of `json.loads`.
pub loads_rule {κ μ} :
    {B : Type κ} (P : B → Type μ) (l : Loads) (f : Value → B) (x y z : B)
    → ((v : Value) → l ≡ loads_value v → P (f v))
    → (l ≡ decode_error → P x)
    → (l ≡ value_error → P y)
    → (l ≡ recursion_error → P z)
    → P (elim l [ loads_value v ↦ f v | decode_error ↦ x | value_error ↦ y | recursion_error ↦ z ])
loads_rule P (loads_value v) f x y z on_value on_decode on_value_error on_depth = on_value v refl
loads_rule P decode_error f x y z on_value on_decode on_value_error on_depth = on_decode refl
loads_rule P value_error f x y z on_value on_decode on_value_error on_depth = on_value_error refl
loads_rule P recursion_error f x y z on_value on_decode on_value_error on_depth = on_depth refl

-- d.get(k) of a dict that `json.loads` made
unfoldable pub get_field : String → Fields → Option Value
get_field k end = none
get_field k (field j v fs) = if beq j k then some v else get_field k fs

-- d[k] = v
unfoldable pub set_field : String → Value → Fields → Fields
set_field k v end = field k v end
set_field k v (field j w fs) = if beq j k then field j v fs else field j w (set_field k v fs)

-- k in d
abbrev pub has_field : String → Fields → Bool
has_field k fs = is_some (get_field k fs)

-- isinstance(value, int): a bool is an int in Python, True is 1 and False is 0.
abbrev pub as_int : Value → Option ℤ
as_int (int n) = some n
as_int (bool true) = some (pos 1)
as_int (bool false) = some (pos 0)
as_int _ = none

-- isinstance(value, dict)
abbrev pub as_dict : Value → Option Fields
as_dict (obj fs) = some fs
as_dict _ = none

-- isinstance(value, str)
abbrev pub as_str : Value → Option String
as_str (str s) = some s
as_str _ = none

-- value is True
abbrev pub is_true : Value → Bool
is_true (bool b) = b
is_true _ = false

-- The bit pattern of the double 1.0.
abbrev float_one : ℕ
float_one = 0x3ff0000000000000

-- value == 1
unfoldable pub equals_one : Value → Bool
equals_one (int n) = eqb_ℤ n (pos 1)
equals_one (bool b) = b
equals_one (float bits) = bits == 0x3ff0000000000000
equals_one _ = false

pub get_field-set_field :
    (k j : String) (v : Value) (fs : Fields)
    → get_field j (set_field k v fs) ≡ (if beq k j then some v else get_field j fs)
unfolding get_field set_field
get_field-set_field k j v end = refl
get_field-set_field k j v (field i w fs) = ground (
  arith,
  string_eq.test_iff k j,
  string_eq.test_iff i k,
  string_eq.test_iff i j,
  get_field-set_field k j v fs,
)
