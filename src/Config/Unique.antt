-- ===== src/Config/Unique.antt =====
-- A limit that is configured for a department and a model is the one that is applied.
use vllm_source_gateway.Base.{
  String, ◌≡◌, refl, List, [], ◌∷◌, map, Bool, true, false, any, beq, beq_refl, All, Option, none,
  some, pair_eq, string_eq, arith, if◌then◌else◌,
}
use vllm_source_gateway.Config.Validated.{Validated, valid, invalid}
use vllm_source_gateway.Config.App.{check_pairs}

abbrev pub is_valid : {A : Type 0} → Validated A → Bool
is_valid (valid a) = true
is_valid (invalid error) = false

-- No pair of the list is among those seen.
abbrev Fresh : List (String × String) → String × String → Type 0
Fresh seen p = any (λ pair. beq pair p) seen ≡ false

check_pairs_step :
    (field d m : String) (seen pairs : List (String × String))
    → is_valid (check_pairs field seen ((d, m) ∷ pairs)) ≡ true
    → Fresh seen (d, m) × (is_valid (check_pairs field ((d, m) ∷ seen) pairs) ≡ true)
unfolding check_pairs
check_pairs_step field d m seen pairs h = (ground (arith, h), ground (arith, h))

module _ {A : Type 0} (pair : A → String × String) where
  check_pairs-Fresh :
      (field : String) (seen : List (String × String)) (limits : List A)
      → is_valid (check_pairs field seen (map pair limits)) ≡ true
      → All (λ limit. Fresh seen (pair limit)) limits
  check_pairs-Fresh field seen [] h = tt
  check_pairs-Fresh field seen (limit ∷ limits) h =
      let (fresh, later) =
        check_pairs_step field (pair limit).0 (pair limit).1 seen (map pair limits) h in
      (fresh, weaken limits (check_pairs-Fresh field (pair limit ∷ seen) limits later))
    where
      weaken :
          (rest : List A)
          → All (λ other. Fresh (pair limit ∷ seen) (pair other)) rest
          → All (λ other. Fresh seen (pair other)) rest
      weaken [] all = tt
      weaken (other ∷ rest) (h, all) = (ground (arith, h), weaken rest all)

  -- The first item whose pair is the given one.
  abbrev pub first_with : String × String → List A → Option A
  first_with p [] = none
  first_with p (limit ∷ limits) = if beq (pair limit) p then some limit else first_with p limits

  pub check_pairs-first_with :
      (field : String) (seen : List (String × String)) (limits : List A)
      → is_valid (check_pairs field seen (map pair limits)) ≡ true
      → All (λ limit. first_with (pair limit) limits ≡ some limit) limits
  check_pairs-first_with field seen [] h = tt
  check_pairs-first_with field seen (limit ∷ limits) h =
      let (fresh, later) =
        check_pairs_step field (pair limit).0 (pair limit).1 seen (map pair limits) h in
      (
        rw (beq_refl (pair limit)) refl,
        further limits (check_pairs-Fresh field (pair limit ∷ seen) limits later)
            (check_pairs-first_with field (pair limit ∷ seen) limits later),
      )
    where
      further :
          (rest : List A)
          → All (λ other. Fresh (pair limit ∷ seen) (pair other)) rest
          → All (λ other. first_with (pair other) limits ≡ some other) rest
          → All (λ other. first_with (pair other) (limit ∷ limits) ≡ some other) rest
      further [] fresh found = tt
      further (other ∷ rest) (h, fresh) (k, found) =
          (ground (arith, h, k), further rest fresh found)
