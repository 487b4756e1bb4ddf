-- ===== src/Stream/Decoded.antt =====
-- Bytes that are decoded in two pieces.
use mathlib.Core.List.{append_assoc}
use vllm_source_gateway.Base.{
  ℕ, ◌≡◌, refl, ap, sym, ◌∙◌, List, [], ◌∷◌, ◌++◌, Option, none, some, arith,
}
use vllm_source_gateway.Text.{Text}
use vllm_source_gateway.Stream.Utf8.{Decoder, Decoded, decode_byte, behind, decode}

abbrev pub decode_next : Option Decoded → List ℕ → Option Decoded
decode_next none bytes = none
decode_next (some (text, d)) bytes = behind text (decode d bytes)

behind-behind : (a b : Text) (o : Option Decoded) → behind a (behind b o) ≡ behind (a ++ b) o
behind-behind a b none = refl
behind-behind a b (some (t, d)) = ap (λ (s : Text). some (s, d)) (sym (append_assoc a b t))

behind-decode_next :
    (a : Text) (o : Option Decoded) (ys : List ℕ)
    → behind a (decode_next o ys) ≡ decode_next (behind a o) ys
behind-decode_next a none ys = refl
behind-decode_next a (some (t, d)) ys = behind-behind a t (decode d ys)

behind_nil : (o : Option Decoded) → behind [] o ≡ o
behind_nil none = refl
behind_nil (some (t, d)) = refl

-- Bytes may be decoded in pieces.
pub decode-append :
    (d : Decoder) (xs ys : List ℕ) → decode d (xs ++ ys) ≡ decode_next (decode d xs) ys
unfolding decode
decode-append d [] ys = sym (behind_nil (decode d ys))
decode-append d (b ∷ xs) ys = go (decode_byte d b) λ next. decode-append next xs ys
  where
    go :
        (o : Option Decoded)
        → ((next : Decoder) → decode next (xs ++ ys) ≡ decode_next (decode next xs) ys)
        → ◌≡◌ {A = Option Decoded}
            (elim o [ none ↦ none | some (text, next) ↦ behind text (decode next (xs ++ ys)) ])
            (decode_next
              (elim o [ none ↦ none | some (text, next) ↦ behind text (decode next xs) ])
              ys)
    go none later = refl
    go (some (text, next)) later =
        ap (behind text) (later next) ∙ behind-decode_next text (decode next xs) ys

-- The two parts of a decoded text.
abbrev pub Parts : Decoder → (xs ys : List ℕ) → Text → Decoder → Type 0
Parts d xs ys more last =
    (fragment : Text) × (next : Decoder) × (later : Text) × (decode d xs ≡ some (fragment, next))
    × (decode next ys ≡ some (later, last))
    × (more ≡ fragment ++ later)

pub decode-Parts :
    (d : Decoder) (xs ys : List ℕ) (more : Text) (last : Decoder)
    → decode d (xs ++ ys) ≡ some (more, last)
    → Parts d xs ys more last
decode-Parts d xs ys more last e = first (decode d xs) refl (sym (decode-append d xs ys) ∙ e)
  where
    second :
        (fragment : Text) (next : Decoder) (o : Option Decoded)
        → decode d xs ≡ some (fragment, next)
        → decode next ys ≡ o
        → behind fragment o ≡ some (more, last)
        → Parts d xs ys more last
    second fragment next none h k b = absurd (ground (arith, b))
    second fragment next (some (later, final)) h k b =
        (fragment, next, later, h, ground (arith, k, b), ground (arith, b))

    first :
        (o : Option Decoded)
        → decode d xs ≡ o
        → decode_next o ys ≡ some (more, last)
        → Parts d xs ys more last
    first none h b = absurd (ground (arith, b))
    first (some (fragment, next)) h b = second fragment next (decode next ys) h refl b
