-- ===== src/Catalog/Card.antt =====
-- `_example_curl` and `_render_card`.
use vllm_source_gateway.Base.{List, [], ◌∷◌, ◌++◌, Option, none, some, beq, if◌then◌else◌}
use vllm_source_gateway.Text.{Text, codes, text_eq}
use vllm_source_gateway.Source.{is_empty}
use vllm_source_gateway.Models.{ModelAvailability}
use vllm_source_gateway.Proxy.State.{decimal}
use vllm_source_gateway.Config.Sections.{ModelCatalogEntry}
use vllm_source_gateway.Catalog.Markup.{
  escape, catalog_status, status_name, text_or_missing, bullet_list, chips, display_name_line,
}

-- The dicts that the example passes to json.dumps: for /v1/responses with the prompt as "input", for
-- /v1/messages and /v1/chat/completions with it as the content of the user's message.
pub data ExampleBody : Type 0 where
  responses_body messages_body chat_body : (model_name prompt : Text) → ExampleBody

-- A field of an entry that may be missing.
abbrev pub optional : (ModelCatalogEntry → Option Text) → Option ModelCatalogEntry → Option Text
optional f none = none
optional f (some entry) = f entry

abbrev pub listed : (ModelCatalogEntry → List Text) → Option ModelCatalogEntry → List Text
listed f none = []
listed f (some entry) = f entry

abbrev prompt_or_default : Option Text → Text
prompt_or_default none = codes "Say hello."
prompt_or_default (some prompt) = if is_empty prompt then codes "Say hello." else prompt

-- api_paths[0] if api_paths else "chat"
abbrev selected_path : List Text → Text
selected_path [] = codes "chat"
selected_path (path ∷ paths) = path

abbrev curl : (headers url : Text) → (body : Text) → Text
curl headers url body =
    codes "curl -sS -H 'content-type: application/json' -H 'x-api-key: ${API_KEY}' "
    ++ headers
    ++ codes "-X POST '${GATEWAY_URL}"
    ++ url
    ++ codes "' --data '"
    ++ body
    ++ codes "'"

-- The text of the lines, with a newline between two of them.
abbrev pub join_with_newlines : List Text → Text
join_with_newlines [] = []
join_with_newlines (line ∷ []) = line
join_with_newlines (line ∷ next ∷ lines) = line ++ 10 ∷ join_with_newlines (next ∷ lines)

module _ (json_dumps : ExampleBody → Text) where
  -- The command before it is escaped.
  abbrev pub curl_command : (model_name : Text) → Option ModelCatalogEntry → Text
  curl_command model_name entry =
      let prompt = prompt_or_default (optional (λ e. e.example_prompt) entry) in
      let path = selected_path (listed (λ e. e.api_paths) entry) in
      if beq path (codes "responses")
      then curl [] (codes "/v1/responses") (json_dumps (responses_body model_name prompt))
      else if beq path (codes "messages")
      then curl (codes "-H 'anthropic-version: 2023-06-01' ") (codes "/v1/messages")
          (json_dumps (messages_body model_name prompt))
      else curl [] (codes "/v1/chat/completions") (json_dumps (chat_body model_name prompt))

  unfoldable pub example_curl : (model_name : Text) → Option ModelCatalogEntry → Text
  unfolding escape
  example_curl model_name entry = escape (curl_command model_name entry)

unfoldable pub header_lines : ModelAvailability → Option ModelCatalogEntry → List Text
unfolding escape display_name_line catalog_status decimal
header_lines model entry =
    let status = status_name (catalog_status model) in
    []
    ∷ codes "      <article class=\"model-card\">"
    ∷ codes "        <header class=\"model-card-header\">"
    ∷ codes "          <div>"
    ∷ (codes "            <h2>" ++ (escape (codes model.model_name) ++ codes "</h2>"))
    ∷ (codes "            " ++ display_name_line (optional (λ e. e.display_name) entry))
    ∷ codes "          </div>"
    ∷ codes "          <div class=\"status-wrap\">"
    ∷ (codes "            <span class=\"status status-"
        ++ (escape status ++ (codes "\">" ++ (escape status ++ codes "</span>"))))
    ∷ codes "            <span class=\"upstream-count\">"
    ∷ (codes "              "
        ++ (codes (decimal model.healthy_upstream_count)
            ++ (codes "/" ++ (codes (decimal model.total_upstream_count) ++ codes " upstreams"))))
    ∷ codes "            </span>"
    ∷ codes "          </div>"
    ∷ codes "        </header>"
    ∷ []
    ∷ []

unfoldable pub detail_lines : Option ModelCatalogEntry → List Text
unfolding text_or_missing
detail_lines entry =
    codes "        <dl class=\"model-details\">"
    ∷ codes "          <div>"
    ∷ codes "            <dt>Hosted on</dt>"
    ∷ (codes "            <dd>"
        ++ (text_or_missing (optional (λ e. e.hosted_on) entry) ++ codes "</dd>"))
    ∷ codes "          </div>"
    ∷ codes "          <div>"
    ∷ codes "            <dt>Context window</dt>"
    ∷ (codes "            <dd>"
        ++ (text_or_missing (optional (λ e. e.context_window) entry) ++ codes "</dd>"))
    ∷ codes "          </div>"
    ∷ codes "        </dl>"
    ∷ []
    ∷ []

-- Lists of lines, one behind the other.
abbrev pub in_sequence : List (List Text) → List Text
in_sequence [] = []
in_sequence (block ∷ blocks) = block ++ in_sequence blocks

-- A section with its title and the one line below it.
unfoldable pub section_lines : (title line : Text) → List Text
section_lines title line =
    codes "        <section>"
    ∷ (codes "          <h3>" ++ (title ++ codes "</h3>"))
    ∷ (codes "          " ++ line)
    ∷ codes "        </section>"
    ∷ []

abbrev pub chip_row : List Text → Text
chip_row values = codes "<div class=\"chip-row\">" ++ (chips values ++ codes "</div>")

module _ (json_dumps : ExampleBody → Text) where
  abbrev pub code_block : (model_name : Text) → Option ModelCatalogEntry → Text
  code_block model_name entry =
      codes "<pre><code>" ++ (example_curl json_dumps model_name entry ++ codes "</code></pre>")

  abbrev pub card_blocks : ModelAvailability → Option ModelCatalogEntry → List (List Text)
  card_blocks model entry =
      header_lines model entry
      ∷ detail_lines entry
      ∷ section_lines (codes "API paths") (chip_row (listed (λ e. e.api_paths) entry))
      ∷ section_lines (codes "Use cases") (chip_row (listed (λ e. e.use_cases) entry))
      ∷ section_lines (codes "Recommended for")
          (bullet_list (listed (λ e. e.recommended_for) entry))
      ∷ section_lines (codes "Known limits") (bullet_list (listed (λ e. e.known_limits) entry))
      ∷ section_lines (codes "Example curl") (code_block (codes model.model_name) entry)
      ∷ (codes "      </article>" ∷ codes "    " ∷ [])
      ∷ []

  -- The lines of the card.
  unfoldable pub card_lines : ModelAvailability → Option ModelCatalogEntry → List Text
  unfolding header_lines detail_lines section_lines example_curl bullet_list chips
  card_lines model entry = in_sequence (card_blocks model entry)

  unfoldable pub render_card : ModelAvailability → Option ModelCatalogEntry → Text
  unfolding card_lines
  render_card model entry = join_with_newlines (card_lines model entry)
