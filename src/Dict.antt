-- ===== src/Dict.antt =====
-- Python's `dict`: an association list in insertion order, one entry for each key. An assignment
-- to a present key replaces the value in place. The entries are private: clients have `dict_laws`.
use vllm_source_gateway.Base.{
  All, beq_refl, Eq, beq, ◌≡◌, refl, Bool, List, [], ◌∷◌, Option, none, some, arith, if◌then◌else◌,
  or_default, is_some, Bool-cases, inl, inr, any, true, sym, ap, ◌∙◌, some_inj,
}

pub record Dict {ℓ} (K : Type 0) (V : Type ℓ) : Type ℓ where
  entries : List (K × V)

module _ {ℓ} {K : Type 0} {V : Type ℓ} where
  -- {}
  unfoldable pub empty : Dict K V
  empty = record { entries = [] }

  -- d.items(), in insertion order
  unfoldable pub items : Dict K V → List (K × V)
  items d = d.entries

module _ {ℓ} {K : Type 0} {V : Type ℓ} ⦃e : Eq K⦄ where
  lookup : K → List (K × V) → Option V
  lookup k [] = none
  lookup k ((j, v) ∷ m) = if beq j k then some v else lookup k m

  insert : K → V → List (K × V) → List (K × V)
  insert k v [] = (k, v) ∷ []
  insert k v ((j, w) ∷ m) = if beq j k then (j, v) ∷ m else (j, w) ∷ insert k v m

  -- d.get(k)
  unfoldable pub get : Dict K V → K → Option V
  unfolding lookup
  get d k = lookup k d.entries

  -- d[k] = v
  unfoldable pub put : Dict K V → K → V → Dict K V
  unfolding insert
  put d k v = record { entries = insert k v d.entries }

  -- k in d
  abbrev pub contains : Dict K V → K → Bool
  contains d k = is_some (get d k)

  -- d.get(k, v), and d[k] of a defaultdict: that a read of a defaultdict also adds the entry is
  -- not observable here, since no such dict is iterated
  abbrev pub get_or : Dict K V → K → V → V
  get_or d k v = or_default (get d k) v

  lookup-insert :
      (k j : K) (v : V) (m : List (K × V))
      → lookup j (insert k v m) ≡ (if beq k j then some v else lookup j m)
  unfolding lookup insert
  lookup-insert k j v [] = refl
  lookup-insert k j v ((i, w) ∷ m) =
      ground (arith, e.test_iff k j, e.test_iff i k, e.test_iff i j, lookup-insert k j v m)

  pub get-put :
      (d : Dict K V) (k j : K) (v : V) → get (put d k v) j ≡ (if beq k j then some v else get d j)
  unfolding get put
  get-put d k j v = lookup-insert k j v d.entries

  pub get_or-put :
      (d : Dict K V) (k j : K) (v w : V)
      → get_or (put d k v) j w ≡ (if beq k j then v else get_or d j w)
  get_or-put d k j v w = elim (Bool-cases (beq k j)) [
    | inl same ↦ rw (get-put, same)
    | inr other ↦ rw (get-put, other)
  ]

  any-lookup :
      (p : K × V → Bool) (k : K) (v : V) (m : List (K × V))
      → lookup k m ≡ some v
      → p (k, v) ≡ true
      → any p m ≡ true
  unfolding lookup
  any-lookup p k v [] found h = absurd (ground (arith, found))
  any-lookup p k v ((j, w) ∷ m) found h = elim (Bool-cases (beq j k)) [
    | inl same ↦
        let key : j ≡ k = (e.test_iff j k).0 same in
        let value : w ≡ v = some_inj (sym (rw same refl) ∙ found) in
        ground (arith, ap (λ (i : K). p (i, w)) key, ap (λ (x : V). p (k, x)) value, h)
    | inr other ↦ ground (arith, any-lookup p k v m (sym (rw other refl) ∙ found) h)
  ]

  -- An entry that is found is an item.
  pub any-items :
      (p : K × V → Bool) (d : Dict K V) (k : K) (v : V)
      → get d k ≡ some v
      → p (k, v) ≡ true
      → any p (items d) ≡ true
  unfolding get items
  any-items p d k v = any-lookup p k v d.entries

  lookup-present :
      (m rest : List (K × V))
      → ((k : K) → is_some (lookup k rest) ≡ true → is_some (lookup k m) ≡ true)
      → All (λ x. is_some (lookup x.0 m) ≡ true) rest
  unfolding lookup
  lookup-present m [] weaken = tt
  lookup-present m ((j, v) ∷ rest) weaken =
      (weaken j (rw (beq_refl j) refl), lookup-present m rest (λ k h. weaken k (ground (arith, h))))

  -- Each item is found.
  pub items-present : (d : Dict K V) → All (λ x. is_some (get d x.0) ≡ true) (items d)
  unfolding get items
  items-present d = lookup-present d.entries d.entries (λ k h. h)

  pub get-empty : (k : K) → get (empty {V = V}) k ≡ none
  unfolding get empty lookup
  get-empty k = refl

pub ruleset dict_laws = (get-empty, get-put, get_or-put)
