-- ===== src/Catalog/Markup.antt =====
-- The pieces of a card, in HTML.
use vllm_source_gateway.Base.{ℕ, List, [], ◌∷◌, ◌++◌, Option, none, some, ◌==◌, ltb, if◌then◌else◌}
use vllm_source_gateway.Text.{Text, codes, strip}
use vllm_source_gateway.Source.{is_empty}
use vllm_source_gateway.Models.{ModelAvailability}

-- A character of html.escape.
unfoldable pub escape_char : ℕ → Text
escape_char c =
    if c == b'&'
    then codes "&amp;"
    else if c == b'<'
    then codes "&lt;"
    else if c == b'>'
    then codes "&gt;"
    else if c == 34
    then codes "&quot;"
    else if c == 39
    then codes "&#x27;"
    else c ∷ []

-- html.escape(s)
unfoldable pub escape : Text → Text
unfolding escape_char
escape [] = []
escape (c ∷ s) = escape_char c ++ escape s

pub data CatalogStatus : Type 0 where
  online degraded offline : CatalogStatus

unfoldable pub catalog_status : ModelAvailability → CatalogStatus
catalog_status model =
    if model.healthy_upstream_count == 0
    then offline
    else if ltb model.healthy_upstream_count model.total_upstream_count
    then degraded
    else online

abbrev pub status_name : CatalogStatus → Text
status_name online = codes "online"
status_name degraded = codes "degraded"
status_name offline = codes "offline"

-- _text: no caller passes an int.
unfoldable pub text_or_missing : Option Text → Text
unfolding escape strip
text_or_missing none = codes "Not documented"
text_or_missing (some value) =
    if is_empty (strip value) then codes "Not documented" else escape (strip value)

abbrev pub missing : Text
missing = codes "<span class=\"muted\">Not documented</span>"

-- "".join of an item for each value
unfoldable pub each : (before after : Text) → List Text → Text
unfolding escape
each before after [] = []
each before after (value ∷ values) = before ++ (escape value ++ (after ++ each before after values))

unfoldable pub bullet_list : List Text → Text
unfolding each
bullet_list [] = missing
bullet_list (value ∷ values) =
    codes "<ul class=\"bullet-list\">"
    ++ (each (codes "<li>") (codes "</li>") (value ∷ values) ++ codes "</ul>")

unfoldable pub chips : List Text → Text
unfolding each
chips [] = missing
chips (value ∷ values) = each (codes "<span class=\"chip\">") (codes "</span>") (value ∷ values)

-- _display_name
unfoldable pub display_name_line : Option Text → Text
unfolding escape
display_name_line none = []
display_name_line (some value) =
    if is_empty value then [] else codes "<p>" ++ (escape value ++ codes "</p>")
