-- ===== src/Base/Keys.antt =====
-- Equality of the keys of a dict: texts, and pairs of texts.
use Prim.Native.String.{String}
use mathlib.Core.Path.{◌≡◌, refl}
use mathlib.Core.Logic.{◌↔◌}
use mathlib.Core.Bool.{Bool, true, ◌&&◌}
use native.Mathlib.Omega.{arith}
use text.Mathlib.Text.{◌==◌ as str_eq}
use text.Mathlib.TextEquality.{eq_iff}

pub record Eq (K : Type 0) : Type 0 where
  pub test : K → K → Bool
  pub test_iff : (a b : K) → (test a b ≡ true) ↔ (a ≡ b)

abbrev pub beq : {K : Type 0} ⦃e : Eq K⦄ → K → K → Bool
beq ⦃e⦄ = e.test

instance abbrev pub string_eq : Eq String
string_eq = record { test = str_eq; test_iff = eq_iff }

abbrev pair_test : String × String → String × String → Bool
pair_test (a, b) (c, d) = str_eq a c && str_eq b d

pub pair_test_iff : (p q : String × String) → (pair_test p q ≡ true) ↔ (p ≡ q)
pair_test_iff (a, b) (c, d) = ground (arith, eq_iff a c, eq_iff b d)

instance abbrev pub pair_eq : Eq (String × String)
pair_eq = record { test = pair_test; test_iff = pair_test_iff }

pub beq_refl : {K : Type 0} ⦃e : Eq K⦄ (k : K) → beq k k ≡ true
beq_refl ⦃e⦄ k = (e.test_iff k k).1 refl
