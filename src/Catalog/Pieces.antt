-- ===== src/Catalog/Pieces.antt =====
-- How much markup the pieces of a card have.
use vllm_source_gateway.Base.{
  ℕ, ◌≡◌, refl, sym, ◌∙◌, List, [], ◌∷◌, ◌++◌, Bool, true, false, ◌||◌, Option, none, some, ◌==◌,
  length, count_by, count_by-append, if_rule, arith, if◌then◌else◌,
}
use vllm_source_gateway.Text.{Text, codes, strip}
use vllm_source_gateway.Source.{is_empty}
use vllm_source_gateway.Catalog.Markup.{
  escape_char, escape, text_or_missing, each, bullet_list, chips, display_name_line,
}

-- A character that begins or ends a tag, or an attribute's value.
abbrev pub is_markup : ℕ → Bool
is_markup c = c == b'<' || c == b'>' || c == 34 || c == 39

abbrev pub markup : Text → ℕ
markup = count_by is_markup

escape_char-markup : (c : ℕ) → markup (escape_char c) ≡ 0
unfolding escape_char
escape_char-markup c = ground arith

pub escape-markup : (s : Text) → markup (escape s) ≡ 0
unfolding escape
escape-markup [] = refl
escape-markup (c ∷ s) = omega (
  arith,
  count_by-append is_markup (escape_char c) (escape s),
  escape_char-markup c,
  escape-markup s,
)

pub text_or_missing-markup : (o : Option Text) → markup (text_or_missing o) ≡ 0
unfolding text_or_missing
text_or_missing-markup none = refl
text_or_missing-markup (some value) =
    if_rule (λ (t : Text). markup t ≡ 0) (is_empty (strip value)) _ _ (λ _. refl)
      λ _. escape-markup (strip value)

-- Text between two texts.
pub wrap-markup :
    (a x y b : Text) → markup x ≡ markup y → markup (a ++ (x ++ b)) ≡ markup (a ++ (y ++ b))
wrap-markup a x y b same = omega (
  arith,
  same,
  count_by-append is_markup a (x ++ b),
  count_by-append is_markup a (y ++ b),
  count_by-append is_markup x b,
  count_by-append is_markup y b,
)

pub behind-markup : (a x y : Text) → markup x ≡ markup y → markup (a ++ x) ≡ markup (a ++ y)
behind-markup a x y same =
    omega (arith, same, count_by-append is_markup a x, count_by-append is_markup a y)

each-markup :
    (before after : Text) (vs ws : List Text)
    → length vs ≡ length ws
    → markup (each before after vs) ≡ markup (each before after ws)
unfolding each
each-markup before after [] [] h = refl
each-markup before after [] (w ∷ ws) h = absurd (omega (arith, h))
each-markup before after (v ∷ vs) [] h = absurd (omega (arith, h))
each-markup before after (v ∷ vs) (w ∷ ws) h =
    let rest = each-markup before after vs ws (omega (arith, h)) in
    let same : markup (escape v) ≡ markup (escape w) = escape-markup v ∙ sym (escape-markup w) in
    behind-markup before (escape v ++ (after ++ each before after vs))
      (escape v ++ (after ++ each before after ws))
      (behind-markup (escape v) (after ++ each before after vs) (after ++ each before after ws)
        (behind-markup after (each before after vs) (each before after ws) rest))
    ∙ wrap-markup before (escape v) (escape w) (after ++ each before after ws) same

pub chips-markup :
    (vs ws : List Text) → length vs ≡ length ws → markup (chips vs) ≡ markup (chips ws)
unfolding chips
chips-markup [] [] h = refl
chips-markup [] (w ∷ ws) h = absurd (omega (arith, h))
chips-markup (v ∷ vs) [] h = absurd (omega (arith, h))
chips-markup (v ∷ vs) (w ∷ ws) h =
    each-markup (codes "<span class=\"chip\">") (codes "</span>") (v ∷ vs) (w ∷ ws) h

pub bullet_list-markup :
    (vs ws : List Text) → length vs ≡ length ws → markup (bullet_list vs) ≡ markup (bullet_list ws)
unfolding bullet_list
bullet_list-markup [] [] h = refl
bullet_list-markup [] (w ∷ ws) h = absurd (omega (arith, h))
bullet_list-markup (v ∷ vs) [] h = absurd (omega (arith, h))
bullet_list-markup (v ∷ vs) (w ∷ ws) h =
    wrap-markup (codes "<ul class=\"bullet-list\">") (each (codes "<li>") (codes "</li>") (v ∷ vs))
      (each (codes "<li>") (codes "</li>") (w ∷ ws)) (codes "</ul>")
      (each-markup (codes "<li>") (codes "</li>") (v ∷ vs) (w ∷ ws) h)

-- Whether there is a display name to show.
abbrev pub shows_name : Option Text → Bool
shows_name none = false
shows_name (some value) = if is_empty value then false else true

abbrev pub name_markup : Bool → ℕ
name_markup false = 0
name_markup true = markup (codes "<p></p>")

pub display_name_line-markup :
    (o : Option Text) → markup (display_name_line o) ≡ name_markup (shows_name o)
unfolding display_name_line
display_name_line-markup none = refl
display_name_line-markup (some []) = refl
display_name_line-markup (some (c ∷ s)) =
    wrap-markup (codes "<p>") (escape (c ∷ s)) [] (codes "</p>") (escape-markup (c ∷ s))
