-- ===== src/Source/Presents.antt =====
-- Which API key the headers of a request present.
use vllm_source_gateway.Base.{
  ℕ, ◌≡◌, refl, sym, ap, subst, ◌∙◌, ◌⊎◌, inl, inr, [], ◌∷◌, ◌++◌, Option, none, some, Bool, true,
  false, not, ◌&&◌, ◌==◌, arith, if_rule, string_eq,
}
use vllm_source_gateway.Text.{Text, codes, text_eq, lower, strip}
use vllm_source_gateway.Source.{partition, extract_api_key, is_empty, present, bearer_value}

abbrev pub has_no_space : Text → Bool
has_no_space [] = true
has_no_space (c ∷ s) = not (c == b' ') && has_no_space s

-- The request presents the key `k`: in X-API-Key, with or without spaces around it, or, where that
-- header is missing or empty, in Authorization, behind "bearer" in any letters and a space.
pub data Presents (authorization x_api_key : Option Text) (k : Text) : Type 0 where
  by_header :
      (header : Text)
      → x_api_key ≡ some header
      → is_empty header ≡ false
      → strip header ≡ k
      → is_empty k ≡ false
      → Presents authorization x_api_key k
  by_bearer :
      (scheme value : Text)
      → present x_api_key ≡ none
      → authorization ≡ some (scheme ++ b' ' ∷ value)
      → has_no_space scheme ≡ true
      → lower scheme ≡ codes "bearer"
      → strip value ≡ k
      → is_empty k ≡ false
      → Presents authorization x_api_key k

partition-append :
    (scheme value : Text)
    → has_no_space scheme ≡ true
    → partition (scheme ++ b' ' ∷ value) ≡ (scheme, value)
unfolding partition
partition-append [] value h = refl
partition-append (c ∷ scheme) value h =
    ground (arith, h, partition-append scheme value (ground (arith, h)))

-- What `partition` splits: the scheme holds no space, and a value stands behind one.
abbrev IsSplit : Text → Text × Text → Type 0
IsSplit s (scheme, value) =
    (has_no_space scheme ≡ true) × ((s ≡ scheme ++ b' ' ∷ value) ⊎ (value ≡ []))

partition-IsSplit : (s : Text) → IsSplit s (partition s)
unfolding partition
partition-IsSplit [] = (refl, inr refl)
partition-IsSplit (c ∷ s) =
    let (free, rest) = partition-IsSplit s in
    if_rule (IsSplit (c ∷ s)) (c == b' ') _ _ (λ space. (refl, inl (ground (arith, space))))
      λ other. (
        ground (arith, other, free),
        elim rest [ inl e ↦ inl (ap (λ (t : Text). c ∷ t) e) | inr e ↦ inr e ],
      )

bearer_value-Presents :
    (x_api_key : Option Text) (s k : Text)
    → present x_api_key ≡ none
    → bearer_value s ≡ some k
    → Presents (some s) x_api_key k
unfolding bearer_value strip
bearer_value-Presents x_api_key s k absent h =
    let (free, rest) = partition-IsSplit s in
    let same : strip (partition s).1 ≡ k = ground (arith, h) in
    let full : is_empty k ≡ false = ground (arith, h) in
    let is_bearer : lower (partition s).0 ≡ codes "bearer" =
      (text_eq.test_iff (lower (partition s).0) (codes "bearer")).0 (ground (arith, h)) in
    elim rest [
      | inl e ↦
          by_bearer (partition s).0 (partition s).1 absent (ap (λ (t : Text). some t) e) free
            is_bearer same full
      | inr nothing ↦
          let blank : k ≡ [] = sym same ∙ ap (λ (t : Text). strip t) nothing in
          absurd (ground (arith, full, blank))
    ]

pub extract_api_key-Presents :
    (authorization x_api_key : Option Text) (k : Text)
    → extract_api_key authorization x_api_key ≡ some k
    → Presents authorization x_api_key k
unfolding extract_api_key
extract_api_key-Presents authorization (some (c ∷ s)) k h =
    by_header (c ∷ s) refl refl (ground (arith, h)) (ground (arith, h))
extract_api_key-Presents (some (c ∷ s)) none k h = bearer_value-Presents none (c ∷ s) k refl h
extract_api_key-Presents (some (c ∷ s)) (some []) k h =
    bearer_value-Presents (some []) (c ∷ s) k refl h
extract_api_key-Presents (some []) none k h = absurd (ground (arith, h))
extract_api_key-Presents (some []) (some []) k h = absurd (ground (arith, h))
extract_api_key-Presents none none k h = absurd (ground (arith, h))
extract_api_key-Presents none (some []) k h = absurd (ground (arith, h))

presented_in :
    (s k : Text) (x_api_key : Option Text)
    → is_empty s ≡ false
    → present x_api_key ≡ none
    → bearer_value s ≡ some k
    → extract_api_key (some s) x_api_key ≡ some k
unfolding extract_api_key
presented_in [] k x solid absent found = absurd (ground (arith, solid))
presented_in (c ∷ s) k none solid absent found = found
presented_in (c ∷ s) k (some []) solid absent found = found
presented_in (c ∷ s) k (some (b ∷ t)) solid absent found = absurd (ground (arith, absent))

append_is_not_empty : (s t : Text) (c : ℕ) → is_empty (s ++ c ∷ t) ≡ false
append_is_not_empty [] t c = refl
append_is_not_empty (b ∷ s) t c = refl

bearer_value-append :
    (scheme value k : Text)
    → has_no_space scheme ≡ true
    → lower scheme ≡ codes "bearer"
    → strip value ≡ k
    → is_empty k ≡ false
    → bearer_value (scheme ++ b' ' ∷ value) ≡ some k
unfolding bearer_value
bearer_value-append scheme value k free is_bearer same solid =
    rw (partition-append scheme value free, is_bearer, same, solid) refl

extract_header :
    (authorization : Option Text) (header k : Text)
    → is_empty header ≡ false
    → strip header ≡ k
    → is_empty k ≡ false
    → extract_api_key authorization (some header) ≡ some k
unfolding extract_api_key
extract_header authorization [] k solid same full = absurd (ground (arith, solid))
extract_header authorization (c ∷ s) k solid same full = rw (same, full) refl

pub Presents-solid :
    (authorization x_api_key : Option Text) (k : Text)
    → Presents authorization x_api_key k
    → is_empty k ≡ false
Presents-solid authorization x_api_key k (by_header header there solid same full) = full
Presents-solid authorization x_api_key k
      (by_bearer scheme value absent there free is_bearer same full) =
    full

pub Presents-extract_api_key :
    (authorization x_api_key : Option Text) (k : Text)
    → Presents authorization x_api_key k
    → extract_api_key authorization x_api_key ≡ some k
Presents-extract_api_key authorization x_api_key k (by_header header there solid same full) =
    subst (λ (x : Option Text). extract_api_key authorization x ≡ some k) (sym there)
      (extract_header authorization header k solid same full)
Presents-extract_api_key authorization x_api_key k
      (by_bearer scheme value absent there free is_bearer same full) =
    subst (λ (a : Option Text). extract_api_key a x_api_key ≡ some k) (sym there)
      (presented_in (scheme ++ b' ' ∷ value) k x_api_key (append_is_not_empty scheme value b' ')
        absent (bearer_value-append scheme value k free is_bearer same full))
