-- ===== src/Config/Names.antt =====
-- `str.strip` on names, and the lists of stripped values that are not empty.
use Prim.Native.Char.{Char, code}
use vllm_source_gateway.Base.{String, Bool, List, [], ◌∷◌, beq, string_eq, if◌then◌else◌}
use vllm_source_gateway.Text.{Text, is_space, strip}
use vllm_source_gateway.Source.{is_empty}

-- s.lstrip()
unfoldable pub lstrip_name : String → String
unfolding is_space
lstrip_name String.[] = ""
lstrip_name (String.◌∷◌ c s) = if is_space (code c) then lstrip_name s else String.◌∷◌ c s

-- What a character in front of a stripped rest becomes.
unfoldable pub rstrip_name_cons : Char → String → String
unfolding is_space
rstrip_name_cons c String.[] = if is_space (code c) then "" else String.◌∷◌ c ""
rstrip_name_cons c (String.◌∷◌ d t) = String.◌∷◌ c (String.◌∷◌ d t)

-- s.rstrip()
unfoldable pub rstrip_name : String → String
unfolding rstrip_name_cons
rstrip_name String.[] = ""
rstrip_name (String.◌∷◌ c s) = rstrip_name_cons c (rstrip_name s)

-- s.strip()
unfoldable pub strip_name : String → String
unfolding lstrip_name rstrip_name
strip_name s = rstrip_name (lstrip_name s)

-- not s
abbrev pub is_blank : String → Bool
is_blank s = beq s ""

-- [value.strip() for value in values if value.strip()]
unfoldable pub strip_names : List String → List String
unfolding strip_name
strip_names [] = []
strip_names (s ∷ names) =
    let rest = strip_names names in if is_blank (strip_name s) then rest else strip_name s ∷ rest

unfoldable pub strip_keys : List Text → List Text
unfolding strip
strip_keys [] = []
strip_keys (s ∷ keys) =
    let rest = strip_keys keys in if is_empty (strip s) then rest else strip s ∷ rest
