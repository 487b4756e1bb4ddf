-- ===== src/Proxy/Secrets.antt =====
-- No header that identifies the client reaches an upstream.
use vllm_source_gateway.Base.{
  String, ◌≡◌, refl, sym, ◌∙◌, ◌⊎◌, inl, inr, List, [], ◌∷◌, ◌++◌, Bool, true, false, ◌&&◌, ◌||◌,
  Option, none, some, any, beq, arith, if_rule, if◌then◌else◌, Bool-cases,
}
use vllm_source_gateway.Dict.{Dict, empty, get, put, get-put, get-empty}
use vllm_source_gateway.Text.{Text, codes, text_eq, lower}
use vllm_source_gateway.Proxy.Headers.{
  is_in, allowed_upstream_headers, blocked_upstream_headers, starts_with,
  should_forward_upstream_header, filter_headers, build_upstream_headers,
}

-- The pair is one of the request's headers.
abbrev pub carries : List (Text × Text) → Text → Text → Bool
carries headers key value = any (λ h. beq (h.0) key && beq (h.1) value) headers

-- Where an entry of a filtered dict comes from.
filter_headers-source :
    (test : Text → Bool) (headers : List (Text × Text)) (d : Dict Text Text) (k v : Text)
    → get (filter_headers test headers d) k ≡ some v
    → (get d k ≡ some v) ⊎ ((test k ≡ true) × (carries headers k v ≡ true))
unfolding filter_headers
filter_headers-source test [] d k v h = inl h
filter_headers-source test ((key, value) ∷ headers) d k v found =
    if_rule
      (λ (r : Dict Text Text).
        get r k ≡ some v
        → (get d k ≡ some v) ⊎ ((test k ≡ true) × (carries ((key, value) ∷ headers) k v ≡ true)))
      (test key) _ _
      (λ passes h. ground (
        arith,
        filter_headers-source test headers (put d key value) k v h,
        get-put d key k value,
        text_eq.test_iff key k,
        text_eq.test_iff value v,
        passes,
      ))
      (λ _ h. ground (arith, filter_headers-source test headers d k v h)) found

-- Why a header is sent to an upstream: the client sent it under an allowed name that is not
-- blocked, or it is the upstream's own token.
pub data Sent (headers : List (Text × Text)) (token : Option String) (k v : Text) : Type 0 where
  copied :
      is_in blocked_upstream_headers (lower k) ≡ false
      → (is_in allowed_upstream_headers (lower k) || starts_with (codes "x-stainless-") (lower k))
        ≡ true
      → carries headers k v ≡ true
      → Sent headers token k v
  authorized :
      (t : String)
      → token ≡ some t
      → k ≡ codes "authorization"
      → v ≡ codes "Bearer " ++ codes t
      → Sent headers token k v

forwarded :
    (k : Text)
    → should_forward_upstream_header k ≡ true
    → (is_in blocked_upstream_headers (lower k) ≡ false)
      × ((is_in allowed_upstream_headers (lower k) || starts_with (codes "x-stainless-") (lower k))
          ≡ true)
unfolding should_forward_upstream_header
forwarded k =
    go (is_in blocked_upstream_headers (lower k)) (is_in allowed_upstream_headers (lower k))
      (starts_with (codes "x-stainless-") (lower k))
  where
    go :
        (b a s : Bool)
        → (if b then false else if a then true else s) ≡ true
        → (b ≡ false) × ((a || s) ≡ true)
    go b a s h = ground (arith, h)

copied_from :
    (headers : List (Text × Text)) (token : Option String) (k v : Text)
    → get (filter_headers should_forward_upstream_header headers empty) k ≡ some v
    → Sent headers token k v
copied_from headers token k v h =
    elim (filter_headers-source should_forward_upstream_header headers empty k v h) [
      | inl e ↦ absurd (ground (arith, e, get-empty {V = Text} k))
      | inr e ↦ copied (forwarded k (e.0)).0 (forwarded k (e.0)).1 (e.1)
    ]

-- Each header that goes to an upstream is one of the request's with an allowed name that is not
-- blocked, in any case of its letters, or it is `authorization` with the token of the upstream. So
-- the request's own x-api-key, cookie and authorization are never passed on.
pub build_upstream_headers-Sent :
    (headers : List (Text × Text)) (token : Option String) (k v : Text)
    → get (build_upstream_headers headers token) k ≡ some v
    → Sent headers token k v
unfolding build_upstream_headers
build_upstream_headers-Sent headers none k v h = copied_from headers none k v h
build_upstream_headers-Sent headers (some t) k v h =
    let plain = filter_headers should_forward_upstream_header headers empty in
    let named = codes "authorization" in
    let bearer = codes "Bearer " ++ codes t in
    let e = sym (get-put plain named k bearer) ∙ h in
    elim (Bool-cases (beq named k)) [
      | inl same ↦
          authorized t refl (ground (arith, same, text_eq.test_iff named k))
            (ground (arith, same, e))
      | inr other ↦ copied_from headers (some t) k v (ground (arith, other, e))
    ]
