-- ===== src/Capacity/Level.antt =====
-- `run_level` and `run_mixed_level`: the requests of a level in batches.
use vllm_source_gateway.Base.{
  ℕ, zero, suc, String, List, [], ◌∷◌, ◌++◌, Option, none, some, ltb, leb, ◌+◌, ◌-◌, if◌then◌else◌,
}
use vllm_source_gateway.Capacity.Request.{RequestResult, StreamReply, Level, run_streaming_request}

-- min(m, n)
abbrev pub least : ℕ → ℕ → ℕ
least m n = if leb m n then m else n

-- What the client meets for the request of that index.
abbrev pub Client : Type 0
Client = ℕ → StreamReply

-- The tasks of a batch, and what `gather` returns of them, in their order.
unfoldable pub run_batch : Level → Client → (first size : ℕ) → List RequestResult
unfolding run_streaming_request
run_batch level client first zero = []
run_batch level client first (suc size) =
    run_streaming_request level first (client first) ∷ run_batch level client (suc first) size

-- The loop from `next_index` on; `none` where the fuel is used up.
unfoldable pub run_batches :
    Level → Client → (requests_per_level fuel next_index : ℕ) → Option (List RequestResult)
unfolding run_batch
run_batches level client requests_per_level zero next_index = none
run_batches level client requests_per_level (suc fuel) next_index =
    let batch_size = least level.concurrency (requests_per_level - next_index) in
    let later = run_batches level client requests_per_level fuel (next_index + batch_size) in
    if ltb next_index requests_per_level
    then elim later [
      | none ↦ none
      | some results ↦ some (run_batch level client next_index batch_size ++ results)
    ]
    else some []

-- A round more than the requests is enough fuel.
unfoldable pub run_level : Level → Client → (requests_per_level : ℕ) → Option (List RequestResult)
unfolding run_batches
run_level level client requests_per_level =
    run_batches level client requests_per_level (suc requests_per_level) 0

-- The levels of the models, by their order in the dict; each has its own requests.
unfoldable pub run_mixed_level :
    (path : String)
    → (String → Client)
    → (requests_per_level : ℕ) → List (String × ℕ)
    → List (String × Option (List RequestResult))
unfolding run_level
run_mixed_level path client requests_per_level [] = []
run_mixed_level path client requests_per_level ((model, concurrency) ∷ models) =
    (
      model,
      run_level (record { model = model; path = path; concurrency = concurrency }) (client model)
          requests_per_level,
    )
    ∷ run_mixed_level path client requests_per_level models
