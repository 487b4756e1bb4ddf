-- ===== src/Text.antt =====
-- Python's `str` where the program looks inside it: a list of code points.
pub mod Strip
use Prim.Native.Char.{code}
use vllm_source_gateway.Base.{
  ℕ, String, List, [], ◌∷◌, map, Bool, true, false, ◌&&◌, ◌||◌, leb, ◌==◌, ◌-◌, ◌+◌, if◌then◌else◌,
  Eq, ◌≡◌, ◌↔◌, arith, ==_iff,
}

abbrev pub Text : Type 0
Text = List ℕ

-- The code points of a text literal. `String` has its own `[]` and `∷`.
abbrev pub codes : String → Text
codes String.[] = []
codes (String.◌∷◌ c s) = code c ∷ codes s

abbrev text_test : Text → Text → Bool
text_test [] [] = true
text_test (a ∷ s) (b ∷ t) = a == b && text_test s t
text_test _ _ = false

pub text_test_iff : (s t : Text) → (text_test s t ≡ true) ↔ (s ≡ t)
text_test_iff [] [] = ground arith
text_test_iff [] (b ∷ t) = ground arith
text_test_iff (a ∷ s) [] = ground arith
text_test_iff (a ∷ s) (b ∷ t) = ground (arith, text_test_iff s t, ==_iff a b)

instance abbrev pub text_eq : Eq Text
text_eq = record { test = text_test; test_iff = text_test_iff }

-- str.upper() and str.lower(), on ASCII: HTTP methods, header names and schemes are ASCII tokens.
abbrev upper_char : ℕ → ℕ
upper_char c = if leb b'a' c && leb c b'z' then c - 32 else c

abbrev lower_char : ℕ → ℕ
lower_char c = if leb b'A' c && leb c b'Z' then c + 32 else c

abbrev pub upper : Text → Text
upper = map upper_char

abbrev pub lower : Text → Text
lower = map lower_char

-- str.isspace of one code point, over the whole of Unicode.
unfoldable pub is_space : ℕ → Bool
is_space c =
    (leb 9 c && leb c 13)
    || (leb 28 c && leb c 32)
    || c == 0x85
    || c == 0xa0
    || c == 0x1680
    || (leb 0x2000 c && leb c 0x200a)
    || c == 0x2028
    || c == 0x2029
    || c == 0x202f
    || c == 0x205f
    || c == 0x3000

-- str.lstrip()
unfoldable pub lstrip : Text → Text
unfolding is_space
lstrip [] = []
lstrip (c ∷ s) = if is_space c then lstrip s else c ∷ s

-- What a code point in front of a stripped rest becomes.
unfoldable pub rstrip_cons : ℕ → Text → Text
unfolding is_space
rstrip_cons c [] = if is_space c then [] else c ∷ []
rstrip_cons c (d ∷ t) = c ∷ d ∷ t

-- str.rstrip()
unfoldable pub rstrip : Text → Text
unfolding rstrip_cons
rstrip [] = []
rstrip (c ∷ s) = rstrip_cons c (rstrip s)

-- str.strip()
unfoldable pub strip : Text → Text
unfolding lstrip rstrip
strip s = rstrip (lstrip s)
