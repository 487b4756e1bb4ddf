-- ===== src/Catalog/Escaped.antt =====
-- The names and the documentation of a model add no markup to its card.
use vllm_source_gateway.Base.{
  ℕ, String, ◌≡◌, refl, sym, ap, ◌∙◌, List, [], ◌∷◌, Option, length, count_by-append, sum,
  sum-append, arith,
}
use vllm_source_gateway.Text.{Text, codes}
use vllm_source_gateway.Models.{ModelAvailability}
use vllm_source_gateway.Config.Sections.{ModelCatalogEntry}
use vllm_source_gateway.Catalog.Markup.{
  escape, catalog_status, text_or_missing, bullet_list, chips, display_name_line,
}
use vllm_source_gateway.Catalog.Card.{
  ExampleBody, optional, listed, example_curl, card_lines, join_with_newlines, render_card,
  header_lines, detail_lines, section_lines, in_sequence, card_blocks, chip_row, code_block,
  curl_command,
}
use vllm_source_gateway.Catalog.Pieces.{
  is_markup, markup, escape-markup, text_or_missing-markup, wrap-markup, behind-markup,
  chips-markup, bullet_list-markup, shows_name, name_markup, display_name_line-markup,
}

join-markup : (lines : List Text) → markup (join_with_newlines lines) ≡ sum markup lines
join-markup [] = refl
join-markup (a ∷ []) = omega arith
join-markup (a ∷ c ∷ lines) = omega (
  arith,
  join-markup (c ∷ lines),
  count_by-append is_markup a (10 ∷ join_with_newlines (c ∷ lines)),
)

-- The entries have lists of the same lengths, and both or none of them has a display name to show.
pub record SameShape (e f : Option ModelCatalogEntry) : Type 0 where
  pub names :
      shows_name (optional (λ x. x.display_name) e) ≡ shows_name (optional (λ x. x.display_name) f)
  pub paths : length (listed (λ x. x.api_paths) e) ≡ length (listed (λ x. x.api_paths) f)
  pub uses : length (listed (λ x. x.use_cases) e) ≡ length (listed (λ x. x.use_cases) f)
  pub recommended :
      length (listed (λ x. x.recommended_for) e) ≡ length (listed (λ x. x.recommended_for) f)
  pub limits : length (listed (λ x. x.known_limits) e) ≡ length (listed (λ x. x.known_limits) f)

both_none : {m n : ℕ} → m ≡ 0 → n ≡ 0 → m ≡ n
both_none h k = h ∙ sym k

module _ (e f : Option ModelCatalogEntry) (same : SameShape e f) where
  header-markup :
      (model : ModelAvailability) (other_name : String)
      → sum markup (header_lines model e)
        ≡ sum markup (header_lines (record model { model_name = other_name }) f)
  unfolding header_lines catalog_status
  header-markup model other_name = omega (
    arith,
    wrap-markup (codes "            <h2>") (escape (codes model.model_name))
        (escape (codes other_name)) (codes "</h2>")
        (both_none (escape-markup (codes model.model_name)) (escape-markup (codes other_name))),
    behind-markup (codes "            ") (display_name_line (optional (λ x. x.display_name) e))
        (display_name_line (optional (λ x. x.display_name) f))
        (display_name_line-markup (optional (λ x. x.display_name) e)
          ∙ ap name_markup same.names
          ∙ sym (display_name_line-markup (optional (λ x. x.display_name) f))),
  )

  detail-markup : sum markup (detail_lines e) ≡ sum markup (detail_lines f)
  unfolding detail_lines
  detail-markup = omega (
    arith,
    wrap-markup (codes "            <dd>") (text_or_missing (optional (λ x. x.hosted_on) e))
        (text_or_missing (optional (λ x. x.hosted_on) f)) (codes "</dd>")
        (both_none (text_or_missing-markup (optional (λ x. x.hosted_on) e))
          (text_or_missing-markup (optional (λ x. x.hosted_on) f))),
    wrap-markup (codes "            <dd>") (text_or_missing (optional (λ x. x.context_window) e))
        (text_or_missing (optional (λ x. x.context_window) f)) (codes "</dd>")
        (both_none (text_or_missing-markup (optional (λ x. x.context_window) e))
          (text_or_missing-markup (optional (λ x. x.context_window) f))),
  )

section-markup :
    (title x y : Text)
    → markup x ≡ markup y
    → sum markup (section_lines title x) ≡ sum markup (section_lines title y)
unfolding section_lines
section-markup title x y h = omega (arith, behind-markup (codes "          ") x y h)

chip_row-markup :
    (vs ws : List Text) → length vs ≡ length ws → markup (chip_row vs) ≡ markup (chip_row ws)
chip_row-markup vs ws h =
    wrap-markup (codes "<div class=\"chip-row\">") (chips vs) (chips ws) (codes "</div>")
      (chips-markup vs ws h)

code_block-markup :
    (dumps dumps2 : ExampleBody → Text) (name other : Text) (e f : Option ModelCatalogEntry)
    → markup (code_block dumps name e) ≡ markup (code_block dumps2 other f)
unfolding example_curl
code_block-markup dumps dumps2 name other e f =
    wrap-markup (codes "<pre><code>") (example_curl dumps name e) (example_curl dumps2 other f)
      (codes "</code></pre>")
      (both_none (escape-markup (curl_command dumps name e))
        (escape-markup (curl_command dumps2 other f)))

in_sequence-markup :
    (blocks : List (List Text)) → sum markup (in_sequence blocks) ≡ sum (sum markup) blocks
in_sequence-markup [] = refl
in_sequence-markup (block ∷ blocks) =
    omega (arith, sum-append markup block (in_sequence blocks), in_sequence-markup blocks)

-- Two cards have as many of the characters that begin or end a tag or an attribute's value, whatever
-- the names of the models, the texts of their entries and the JSON of the example are, where the
-- models have the same counts of upstreams and the entries the same shape: no name and no text of
-- the catalog adds a tag or an attribute to the page.
pub render_card-markup :
    (dumps dumps2 : ExampleBody → Text) (model : ModelAvailability) (other_name : String)
    (e f : Option ModelCatalogEntry)
    → SameShape e f
    → markup (render_card dumps model e)
      ≡ markup (render_card dumps2 (record model { model_name = other_name }) f)
unfolding render_card card_lines
render_card-markup dumps dumps2 model other_name e f same =
    let other : ModelAvailability = record model { model_name = other_name } in
    join-markup (card_lines dumps model e)
    ∙ in_sequence-markup (card_blocks dumps model e)
    ∙ omega (
      arith,
      header-markup e f same model other_name,
      detail-markup e f same,
      section-markup (codes "API paths") (chip_row (listed (λ x. x.api_paths) e))
          (chip_row (listed (λ x. x.api_paths) f))
          (chip_row-markup (listed (λ x. x.api_paths) e) (listed (λ x. x.api_paths) f) same.paths),
      section-markup (codes "Use cases") (chip_row (listed (λ x. x.use_cases) e))
          (chip_row (listed (λ x. x.use_cases) f))
          (chip_row-markup (listed (λ x. x.use_cases) e) (listed (λ x. x.use_cases) f) same.uses),
      section-markup (codes "Recommended for") (bullet_list (listed (λ x. x.recommended_for) e))
          (bullet_list (listed (λ x. x.recommended_for) f))
          (bullet_list-markup (listed (λ x. x.recommended_for) e)
            (listed (λ x. x.recommended_for) f) same.recommended),
      section-markup (codes "Known limits") (bullet_list (listed (λ x. x.known_limits) e))
          (bullet_list (listed (λ x. x.known_limits) f))
          (bullet_list-markup (listed (λ x. x.known_limits) e) (listed (λ x. x.known_limits) f)
            same.limits),
      section-markup (codes "Example curl") (code_block dumps (codes model.model_name) e)
          (code_block dumps2 (codes other_name) f)
          (code_block-markup dumps dumps2 (codes model.model_name) (codes other_name) e f),
    )
    ∙ sym (in_sequence-markup (card_blocks dumps2 other f))
    ∙ sym (join-markup (card_lines dumps2 other f))
