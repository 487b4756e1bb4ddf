-- ===== src/Config/Mapped.antt =====
-- A valid configuration maps exactly the keys of its departments.
use vllm_source_gateway.Base.{
  String, ◌≡◌, sym, ap, subst, ◌↔◌, List, [], ◌∷◌, map, Bool, true, false, some, string_eq, if_rule,
  arith, if◌then◌else◌, inl, inr, ◌⊎◌,
}
use vllm_source_gateway.Dict.{Dict, empty, get, items, get-empty}
use vllm_source_gateway.Text.{Text, text_eq}
use vllm_source_gateway.Config.Names.{strip_name, is_blank}
use vllm_source_gateway.Config.Validated.{
  Validated, valid, invalid, and_validate, upstream_names_not_unique,
}
use vllm_source_gateway.Config.App.{
  AppConfig, Registered, register_keys, register_departments, all_unique, check_admission,
  validate_unique_constraints,
}
use vllm_source_gateway.Config.Keys.{
  key_in, IsRegistered, WhenValid, when_valid, register_keys-IsRegistered, register_keys-adds,
  Comes, register_keys-Comes, declares,
}

abbrev pub Departments : Type 0
Departments = List (String × List Text)

-- What follows a valid result.
valid_then :
    {A B : Type 0} {P : A → Type 0} (Q : B → Type 0) (o : Validated A) (k : A → Validated B)
    → WhenValid P o
    → ((a : A) → P a → WhenValid Q (k a))
    → WhenValid Q (elim o [ valid a ↦ k a | invalid error ↦ invalid error ])
valid_then Q (valid a) k h f = f a h
valid_then Q (invalid error) k h f = tt

departments-IsRegistered :
    (k : Text) (d : String) (departments : Departments) (r : Registered)
    → IsRegistered k d r
    → WhenValid (IsRegistered k d) (register_departments departments r)
unfolding register_departments
departments-IsRegistered k d [] r h = h
departments-IsRegistered k d ((department, keys) ∷ departments) r h =
    if_rule (WhenValid (IsRegistered k d)) (is_blank (strip_name department)) _ _ (λ _. tt)
      λ _.
        valid_then (IsRegistered k d) (register_keys (strip_name department) keys r)
          (λ more. register_departments departments more)
          (register_keys-IsRegistered k d (strip_name department) keys r h)
          λ more kept. departments-IsRegistered k d departments more kept

departments-adds :
    (k : Text) (d : String) (departments : Departments) (r : Registered)
    → declares departments k d ≡ true
    → WhenValid (IsRegistered k d) (register_departments departments r)
unfolding register_departments
departments-adds k d [] r h = absurd (ground (arith, h))
departments-adds k d ((department, keys) ∷ departments) r h =
    let rest : Registered → Validated Registered = λ more. register_departments departments more in
    let first = register_keys (strip_name department) keys r in
    if_rule (WhenValid (IsRegistered k d)) (is_blank (strip_name department)) _ _ (λ _. tt)
      λ _. elim (here_or_later h) [
        | inl (same, here) ↦
            valid_then (IsRegistered k d) first rest
              (subst (λ (s : String). WhenValid (IsRegistered k s) first) same
                (register_keys-adds k (strip_name department) keys r here))
              λ more kept. departments-IsRegistered k d departments more kept
        | inr later ↦
            valid_then (IsRegistered k d) first rest (any_result first)
              λ more _. departments-adds k d departments more later
      ]
  where
    here_or_later :
        declares ((department, keys) ∷ departments) k d ≡ true
        → ((strip_name department ≡ d) × (key_in k keys ≡ true)) ⊎ (declares departments k d ≡ true)
    here_or_later h = ground (arith, h, string_eq.test_iff (strip_name department) d)

    any_result : (o : Validated Registered) → WhenValid (λ _. Unit {0}) o
    any_result (valid a) = tt
    any_result (invalid error) = tt

-- A key of the result was there before, or a department has it.
abbrev Declared : Text → String → Registered → Departments → Registered → Type 0
Declared k d before departments after =
    get after.1 k ≡ some d → (get before.1 k ≡ some d) ⊎ (declares departments k d ≡ true)

departments-Declared :
    (k : Text) (d : String) (departments : Departments) (r : Registered)
    → WhenValid (Declared k d r departments) (register_departments departments r)
unfolding register_departments
departments-Declared k d [] r = inl
departments-Declared k d ((department, keys) ∷ departments) r =
    let Q : Registered → Type 0 = Declared k d r ((department, keys) ∷ departments) in
    if_rule (WhenValid Q) (is_blank (strip_name department)) _ _ (λ _. tt)
      λ _.
        valid_then Q (register_keys (strip_name department) keys r)
          (λ more. register_departments departments more)
          (register_keys-Comes k d (strip_name department) keys r)
          λ more comes.
            when_valid (register_departments departments more) (both more comes)
              (departments-Declared k d departments more)
  where
    both :
        (more : Registered)
        → Comes k d r (strip_name department) keys more
        → (after : Registered) → Declared k d more departments after
        → Declared k d r ((department, keys) ∷ departments) after
    both more comes after declared found = elim (declared found) [
      | inr later ↦ inr (ground (arith, later))
      | inl before ↦ elim (comes before) [
        | inl first ↦ inl first
        | inr (same, here) ↦
            inr (ground (arith, here, same, string_eq.test_iff (strip_name department) d))
      ]
    ]

-- The result of the checks is the dict that the loop made.
pub check_admission-same :
    (config : AppConfig) (mapping result : Dict Text String)
    → check_admission config mapping ≡ valid result
    → result ≡ mapping
unfolding check_admission
check_admission-same config mapping result h = go config.admission_control.enabled _ h
  where
    go :
        (enabled : Bool) (checked : Validated (Unit {0}))
        → ◌≡◌ {A = Validated (Dict Text String)}
            (if enabled then and_validate checked (λ _. valid mapping) else valid mapping)
            (valid result)
        → result ≡ mapping
    go true (valid u) e = ground (arith, e)
    go true (invalid error) e = absurd (ground (arith, e))
    go false checked e = ground (arith, e)

pub registered_of :
    (config : AppConfig) (mapping : Dict Text String)
    → validate_unique_constraints config ≡ valid mapping
    → (seen : List Text) × (register_departments (items config.departments) ([], empty)
        ≡ valid (seen, mapping))
      × (check_admission config mapping ≡ valid mapping)
unfolding validate_unique_constraints
registered_of config mapping h =
    go (all_unique (map (λ u. u.name) config.upstreams))
      (register_departments (items config.departments) ([], empty)) h
  where
    go :
        (unique : Bool) (o : Validated Registered)
        → ◌≡◌ {A = Validated (Dict Text String)}
            (if unique
              then and_validate o (λ registered. check_admission config registered.1)
              else invalid upstream_names_not_unique)
            (valid mapping)
        → (seen : List Text) × (o ≡ valid (seen, mapping))
          × (check_admission config mapping ≡ valid mapping)
    go false o e = absurd (ground (arith, e))
    go true (invalid error) e = absurd (ground (arith, e))
    go true (valid (seen, made)) e =
        let same : made ≡ mapping = sym (check_admission-same config made mapping e) in
        (
          seen,
          ap (λ (m : Dict Text String). valid (seen, m)) same,
          subst (λ (m : Dict Text String). check_admission config m ≡ valid mapping) same e,
        )

-- Where the configuration is valid, an API key stands for a department exactly if a department of
-- that name, once stripped, declares the key: no key of any department is lost, changed or given to
-- another department, and no other key is known.
pub validate_unique_constraints-declares :
    (config : AppConfig) (mapping : Dict Text String) (k : Text) (d : String)
    → validate_unique_constraints config ≡ valid mapping
    → (get mapping k ≡ some d) ↔ (declares (items config.departments) k d ≡ true)
validate_unique_constraints-declares config mapping k d h =
    let departments = items config.departments in
    let (seen, made, _) = registered_of config mapping h in
    (
      λ found.
          elim (subst (WhenValid (Declared k d ([], empty) departments)) made
            (departments-Declared k d departments ([], empty)) found) [
              | inl before ↦ absurd (ground (arith, before, get-empty {V = String} k))
              | inr declared ↦ declared
            ],
      λ declared.
          (subst (WhenValid (IsRegistered k d)) made
            (departments-adds k d departments ([], empty) declared)).1,
    )
