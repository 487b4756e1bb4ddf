-- ===== src/Config/Keys.antt =====
-- What a valid configuration maps each API key to.
use vllm_source_gateway.Base.{
  String, ◌≡◌, refl, sym, subst, ◌∙◌, List, [], ◌∷◌, Bool, true, false, any, beq, some, some_inj,
  string_eq, if_rule, arith, if◌then◌else◌, Bool-cases, inl, inr, ◌⊎◌, true≢false, ◌&&◌,
}
use vllm_source_gateway.Dict.{get, put, get-put}
use vllm_source_gateway.Text.{Text, text_eq}
use vllm_source_gateway.Config.Names.{strip_name}
use vllm_source_gateway.Config.Validated.{Validated, valid, invalid}
use vllm_source_gateway.Config.App.{Registered, register_keys}

-- key in keys
abbrev pub key_in : Text → List Text → Bool
key_in k keys = any (λ j. beq j k) keys

-- The key was seen, and stands for the department.
abbrev pub IsRegistered : Text → String → Registered → Type 0
IsRegistered k d (seen, mapping) = (key_in k seen ≡ true) × (get mapping k ≡ some d)

-- The result is a valid one that satisfies `P`, if it is valid.
abbrev pub WhenValid : {A : Type 0} → (A → Type 0) → Validated A → Type 0
WhenValid P (valid a) = P a
WhenValid P (invalid error) = Unit

pub when_valid :
    {A : Type 0} {P Q : A → Type 0} (o : Validated A)
    → ((a : A) → P a → Q a)
    → WhenValid P o
    → WhenValid Q o
when_valid (valid a) f h = f a h
when_valid (invalid error) f h = tt

pub register_keys-IsRegistered :
    (k : Text) (d department : String) (keys : List Text) (registered : Registered)
    → IsRegistered k d registered
    → WhenValid (IsRegistered k d) (register_keys department keys registered)
unfolding register_keys
register_keys-IsRegistered k d department [] registered h = h
register_keys-IsRegistered k d department (j ∷ keys) (seen, mapping) h =
    if_rule (WhenValid (IsRegistered k d)) (any (λ s. beq s j) seen) _ _ (λ _. tt)
      λ fresh.
        register_keys-IsRegistered k d department keys (j ∷ seen, put mapping j department)
          (
            ground (arith, h.0),
            rw (get-put mapping j k department) (other_key (Bool-cases (beq j k)) fresh),
          )
  where
    other_key :
        (beq j k ≡ true) ⊎ (beq j k ≡ false)
        → any (λ s. beq s j) seen ≡ false
        → (if beq j k then some department else get mapping k) ≡ some d
    other_key (inl same) fresh =
        let e : j ≡ k = (text_eq.test_iff j k).0 same in
        true≢false (h.0) (subst (λ (t : Text). key_in t seen ≡ false) e fresh)
    other_key (inr other) fresh = rw other (h.1)

pub register_keys-adds :
    (k : Text) (department : String) (keys : List Text) (registered : Registered)
    → key_in k keys ≡ true
    → WhenValid (IsRegistered k department) (register_keys department keys registered)
unfolding register_keys
register_keys-adds k department [] registered h = absurd (ground (arith, h))
register_keys-adds k department (j ∷ keys) (seen, mapping) h =
    let r : Registered = (j ∷ seen, put mapping j department) in
    if_rule (WhenValid (IsRegistered k department)) (any (λ s. beq s j) seen) _ _ (λ _. tt)
      λ fresh. elim (Bool-cases (beq j k)) [
        | inl same ↦
            register_keys-IsRegistered k department department keys r
              (ground (arith, same), rw (get-put mapping j k department, same) refl)
        | inr other ↦ register_keys-adds k department keys r (ground (arith, h, other))
      ]

-- A key of the result was there before, or is one of the department.
abbrev pub Comes :
    Text → String → Registered → (department : String) → List Text → Registered → Type 0
Comes k d before department keys after =
    get after.1 k ≡ some d → (get before.1 k ≡ some d) ⊎ ((department ≡ d) × (key_in k keys ≡ true))

pub register_keys-Comes :
    (k : Text) (d department : String) (keys : List Text) (registered : Registered)
    → WhenValid (Comes k d registered department keys) (register_keys department keys registered)
unfolding register_keys
register_keys-Comes k d department [] registered = inl
register_keys-Comes k d department (j ∷ keys) (seen, mapping) =
    let r : Registered = (j ∷ seen, put mapping j department) in
    if_rule (WhenValid (Comes k d (seen, mapping) department (j ∷ keys))) (any (λ s. beq s j) seen)
      _ _ (λ _. tt)
      λ fresh.
        when_valid (register_keys department keys r) (earlier (Bool-cases (beq j k)))
          (register_keys-Comes k d department keys r)
  where
    earlier :
        (beq j k ≡ true) ⊎ (beq j k ≡ false)
        → (after : Registered)
        → Comes k d (j ∷ seen, put mapping j department) department keys after
        → Comes k d (seen, mapping) department (j ∷ keys) after
    earlier split after comes found = elim (comes found) [
      | inr (same, here) ↦ inr (same, ground (arith, here))
      | inl before ↦ elim split [
        | inl same ↦ inr (
          some_inj (sym (rw (get-put mapping j k department, same) refl) ∙ before),
          ground (arith, same),
        )
        | inr other ↦ inl (sym (rw (get-put mapping j k department, other) refl) ∙ before)
      ]
    ]

-- A department of that name, once stripped, has the key.
abbrev pub declares : List (String × List Text) → Text → String → Bool
declares departments k d = any (λ e. beq (strip_name e.0) d && key_in k e.1) departments
