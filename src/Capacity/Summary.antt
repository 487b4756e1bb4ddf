-- ===== src/Capacity/Summary.antt =====
-- `summarize`, and the exit code of the load test.
use vllm_source_gateway.Base.{
  ℕ, String, List, [], ◌∷◌, Bool, ◌&&◌, Option, none, some, length, get_elem?, leb, ltb, ◌-◌, max,
  sum, if◌then◌else◌,
}
use vllm_source_gateway.Capacity.Request.{RequestResult, Level}
use vllm_source_gateway.Capacity.Level.{least}

pub record LevelSummary : Type 0 where
  pub model : String
  pub path : String
  pub concurrency : ℕ
  pub total_requests : ℕ
  pub success_count : ℕ
  pub failure_count : ℕ
  pub p50_total_seconds : Option ℕ
  pub p95_total_seconds : Option ℕ
  pub max_total_seconds : Option ℕ
  pub p50_first_chunk_seconds : Option ℕ
  pub p95_first_chunk_seconds : Option ℕ
  pub max_first_chunk_seconds : Option ℕ

-- sorted(values)
unfoldable pub insert_value : ℕ → List ℕ → List ℕ
insert_value v [] = v ∷ []
insert_value v (u ∷ us) = if leb v u then v ∷ u ∷ us else u ∷ insert_value v us

unfoldable pub sort_values : List ℕ → List ℕ
unfolding insert_value
sort_values [] = []
sort_values (v ∷ vs) = insert_value v (sort_values vs)

-- The arithmetic of floats: `round(n * 0.95)`, and statistics.median of a list that is not empty.
pub record Statistics : Type 0 where
  pub scaled : ℕ → ℕ
  pub median : List ℕ → ℕ

-- `scaled` is `round` of the product with the percentage.
unfoldable pub percentile : (scaled : ℕ → ℕ) → List ℕ → Option ℕ
unfolding sort_values
percentile scaled [] = none
percentile scaled (v ∷ vs) =
    let ordered = sort_values (v ∷ vs) in
    get_elem? ordered (least (length ordered - 1) (scaled (length ordered - 1)))

-- [result for result in results if result.ok]
unfoldable pub successes : List RequestResult → List RequestResult
successes [] = []
successes (r ∷ rs) = let rest = successes rs in if r.ok then r ∷ rest else rest

abbrev total_durations : List RequestResult → List ℕ
total_durations [] = []
total_durations (r ∷ rs) = r.total_seconds ∷ total_durations rs

abbrev first_chunk_durations : List RequestResult → List ℕ
first_chunk_durations [] = []
first_chunk_durations (r ∷ rs) =
    let rest = first_chunk_durations rs in
    elim r.first_chunk_seconds [ none ↦ rest | some d ↦ d ∷ rest ]

-- f(values) if values else None
abbrev if_any : (List ℕ → ℕ) → List ℕ → Option ℕ
if_any f [] = none
if_any f (v ∷ vs) = some (f (v ∷ vs))

abbrev largest : List ℕ → ℕ
largest [] = 0
largest (v ∷ vs) = max v (largest vs)

unfoldable pub summarize : Statistics → Level → List RequestResult → LevelSummary
unfolding successes percentile
summarize st level results =
    let good = successes results in
    let totals = total_durations good in
    let firsts = first_chunk_durations good in
    record {
      model = level.model;
      path = level.path;
      concurrency = level.concurrency;
      total_requests = length results;
      success_count = length good;
      failure_count = length results - length good;
      p50_total_seconds = if_any st.median totals;
      p95_total_seconds = percentile st.scaled totals;
      max_total_seconds = if_any largest totals;
      p50_first_chunk_seconds = if_any st.median firsts;
      p95_first_chunk_seconds = percentile st.scaled firsts;
      max_first_chunk_seconds = if_any largest firsts;
    }

-- return 1 if failures and args.fail_on_error else 0
unfoldable pub exit_code : (fail_on_error : Bool) → List LevelSummary → ℕ
exit_code fail_on_error summaries =
    if ltb 0 (sum (λ s. s.failure_count) summaries) && fail_on_error then 1 else 0
