-- ===== src/Admission/Dropped.antt =====
-- What the retry guard forgets of the failures: nothing that counts now or later.

use vllm_source_gateway.Base.{
  ℕ, ◌≡◌, refl, ◌≤◌, ◌-◌, List, [], ◌∷◌, ◌++◌, ltb, arith, if_rule, All, All-append, pair_eq,
}
use vllm_source_gateway.Admission.Accounting.{drop_old_retries}
use vllm_source_gateway.Admission.Guard.{recent, IsAscending}

pub IsAscending-append :
    (times : List ℕ) (now : ℕ)
    → IsAscending times
    → All (λ t. t ≤ now) times
    → IsAscending (times ++ now ∷ [])
IsAscending-append [] now a b = (tt, tt)
IsAscending-append (t ∷ times) now a b =
    (All-append (λ u. t ≤ u) times (now ∷ []) a.0 (b.0, tt), IsAscending-append times now a.1 b.1)

pub raise-All :
    (times : List ℕ) (last now : ℕ)
    → last ≤ now
    → All (λ t. t ≤ last) times
    → All (λ t. t ≤ now) times
raise-All [] last now later b = tt
raise-All (t ∷ times) last now later b =
    (omega (arith, later, b.0), raise-All times last now later b.1)

-- The drop keeps an end of the times, and loses nothing that counts now or later.
pub record Dropped (now window : ℕ) (times kept : List ℕ) : Type 0 where
  pub ascending : IsAscending kept
  pub bounded : All (λ t. t ≤ now) kept
  pub counts : (later : ℕ) → now ≤ later → recent later window times ≡ recent later window kept

pub drop_old_retries-Dropped :
    (now window : ℕ) (times : List ℕ)
    → IsAscending times
    → All (λ t. t ≤ now) times
    → Dropped now window times (drop_old_retries times now window)
unfolding drop_old_retries
drop_old_retries-Dropped now window [] a b = record {
  ascending = tt;
  bounded = tt;
  counts = λ later h. refl;
}
drop_old_retries-Dropped now window (t ∷ times) a b =
    let rest = drop_old_retries-Dropped now window times a.1 b.1 in
    if_rule (Dropped now window (t ∷ times)) (ltb window (now - t)) _ _
      (λ old. record {
        ascending = rest.ascending;
        bounded = rest.bounded;
        counts = λ later h. ground (arith, rest.counts later h, old, h);
      })
      λ _. record { ascending = a; bounded = b; counts = λ later h. refl }
