-- ===== src/Examples/Tools.antt =====
-- Examples for `Capacity`, `Catalog` and the models of a configuration.
use vllm_source_gateway.Base.{
  ℕ, ℤ, pos, ◌≡◌, refl, List, [], ◌∷◌, Option, none, some, All, beq, if◌then◌else◌,
}
use vllm_source_gateway.Text.{Text, codes, text_eq}
use vllm_source_gateway.Models.{ModelAvailability}
use vllm_source_gateway.Routing.Registry.{get_model_upstreams}
use vllm_source_gateway.Config.Sections.{ModelCatalogEntry}
use vllm_source_gateway.Config.Upstream.{from_config}
use vllm_source_gateway.Config.App.{is_in, all_models}
use vllm_source_gateway.Config.Known.{is_done, get_model_upstreams-from_config}
use vllm_source_gateway.Catalog.Card.{ExampleBody, render_card}
use vllm_source_gateway.Catalog.Pieces.{markup}
use vllm_source_gateway.Catalog.Escaped.{render_card-markup}
use vllm_source_gateway.Capacity.Args.{parse_int_csv}
use vllm_source_gateway.Capacity.Request.{
  RequestResult, unreachable, opened, complete, Level, run_streaming_request,
}
use vllm_source_gateway.Capacity.Summary.{Statistics, summarize}
use vllm_source_gateway.Capacity.Finished.{Finishes, parse_int_csv-Finishes}
use vllm_source_gateway.Examples.Config.{config}

get_model_upstreams-from_config_example :
    is_done (get_model_upstreams (from_config config.upstreams) "m")
    ≡ is_in "m" (all_models config.upstreams)
get_model_upstreams-from_config_example = get_model_upstreams-from_config config.upstreams "m"

-- A name and texts with markup in them, and plain ones.
abbrev model : ModelAvailability
model = record { model_name = "<script>"; total_upstream_count = 2; healthy_upstream_count = 1 }

abbrev entry : (text : Text) → ModelCatalogEntry
entry text = record {
  display_name = some text;
  hosted_on = some text;
  use_cases = text ∷ text ∷ [];
  api_paths = codes "chat" ∷ [];
  context_window = none;
  recommended_for = text ∷ [];
  known_limits = [];
  example_prompt = some text;
}

abbrev dumps : ExampleBody → Text
dumps body = codes "{\"model\": \"<script>\"}"

render_card-markup_example :
    markup (render_card dumps model (some (entry (codes "<b onclick='x'>"))))
    ≡ markup (render_card dumps (record model { model_name = "m" }) (some (entry (codes "plain"))))
render_card-markup_example =
    render_card-markup dumps dumps model "m" (some (entry (codes "<b onclick='x'>")))
      (some (entry (codes "plain")))
      (record { names = refl; paths = refl; uses = refl; recommended = refl; limits = refl })

-- int() of a text of one digit.
abbrev one_digit : Text → Option ℤ
one_digit text =
    if beq text (codes "3")
    then some (pos 3)
    else if beq text (codes "2")
    then some (pos 2)
    else none

abbrev levels : List ℕ
levels = 3 ∷ 2 ∷ []

parse_int_csv-Finishes_example :
    All
      (λ k.
        Finishes
          (record { model = "m"; path = "chat"; concurrency = k })
          (λ i. unreachable "ConnectError" 3)
          5)
      levels
unfolding parse_int_csv
parse_int_csv-Finishes_example =
    parse_int_csv-Finishes one_digit (codes " 3,,2") levels "m" "chat"
      (λ i. unreachable "ConnectError" 3) 5 refl

abbrev level : Level
level = record { model = "m"; path = "chat"; concurrency = 2 }

abbrev results : List RequestResult
results =
    run_streaming_request level 0 (opened 200 (([], 1) ∷ (1 ∷ 2 ∷ [], 4) ∷ []) (complete 9))
    ∷ run_streaming_request level 1 (opened 200 [] (complete 5))
    ∷ []

abbrev statistics : Statistics
statistics = record { scaled = λ n. n; median = λ values. 0 }

summarize_run : (summarize statistics level results).max_total_seconds ≡ some 9
unfolding summarize run_streaming_request
summarize_run = refl
