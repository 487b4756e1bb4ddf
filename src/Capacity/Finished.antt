-- ===== src/Capacity/Finished.antt =====
-- A level makes each of its requests once, and its summary counts them.
use vllm_source_gateway.Text.{Text}
use vllm_source_gateway.Capacity.Args.{
  Parsed, parsed, refused, not_positive, not_an_integer, parse_csv, ints, to_nats, positive_levels,
  parse_int_csv,
}
use vllm_source_gateway.Base.{
  All, All-map, ℤ, pos, negsuc, to_nat, leb_ℤ, any, subst, String, ℕ, zero, suc, ◌≡◌, refl, sym, ap,
  ◌∙◌, ◌<◌, ◌≤◌, List, [], ◌∷◌, ◌++◌, Bool, true, false, Option, none, some, ltb, ◌+◌, ◌-◌,
  Bool-cases, inl, inr, arith, if◌then◌else◌,
}
use vllm_source_gateway.Capacity.Request.{
  RequestResult, StreamReply, unreachable, opened, complete, broken, Level, run_streaming_request,
}
use vllm_source_gateway.Capacity.Level.{least, Client, run_batch, run_batches, run_level}

abbrev pub indices : List RequestResult → List ℕ
indices [] = []
indices (r ∷ rs) = r.request_index ∷ indices rs

-- range(first, first + size)
abbrev pub count_from : (first size : ℕ) → List ℕ
count_from first zero = []
count_from first (suc size) = first ∷ count_from (suc first) size

indices-append : (xs ys : List RequestResult) → indices (xs ++ ys) ≡ indices xs ++ indices ys
indices-append [] ys = refl
indices-append (x ∷ xs) ys = ap (λ (is : List ℕ). x.request_index ∷ is) (indices-append xs ys)

count_from-append :
    (first a b : ℕ) → count_from first a ++ count_from (first + a) b ≡ count_from first (a + b)
count_from-append first zero b =
    let same : first + 0 ≡ first = omega arith in
    let all : b ≡ 0 + b = omega arith in
    ap (λ (i : ℕ). count_from i b) same ∙ ap (count_from first) all
count_from-append first (suc a) b =
    let shift : first + suc a ≡ suc first + a = omega arith in
    let all : suc (a + b) ≡ suc a + b = omega arith in
    ap (λ (is : List ℕ). first ∷ is)
      (ap (λ (i : ℕ). count_from (suc first) a ++ count_from i b) shift
        ∙ count_from-append (suc first) a b)
    ∙ ap (count_from first) all

request_index-same :
    (level : Level) (i : ℕ) (reply : StreamReply)
    → (run_streaming_request level i reply).request_index ≡ i
unfolding run_streaming_request
request_index-same level i (unreachable error elapsed) = refl
request_index-same level i (opened code chunks (complete elapsed)) = refl
request_index-same level i (opened code chunks (broken error elapsed)) = refl

run_batch-indices :
    (level : Level) (client : Client) (first size : ℕ)
    → indices (run_batch level client first size) ≡ count_from first size
unfolding run_batch
run_batch-indices level client first zero = refl
run_batch-indices level client first (suc size) =
    rw (request_index-same level first (client first))
      (ap (λ (is : List ℕ). first ∷ is) (run_batch-indices level client (suc first) size))

least-bounds : (m n : ℕ) → 0 < m → 0 < n → (0 < least m n) × (least m n ≤ n)
least-bounds m n hm hn = (ground (arith, hm, hn), ground arith)

-- The loop ends with results for the indices from `next` on.
abbrev Ends : Level → Client → (n fuel next : ℕ) → Type 0
Ends level client n fuel next =
    (results : List RequestResult) × (run_batches level client n fuel next ≡ some results)
    × (indices results ≡ count_from next (n - next))

run_batches-Ends :
    (level : Level) (client : Client) (n fuel next : ℕ)
    → 0 < level.concurrency
    → n - next < fuel
    → Ends level client n fuel next
unfolding run_batches
run_batches-Ends level client n zero next h enough = absurd (omega (arith, enough))
run_batches-Ends level client n (suc fuel) next h enough = elim (Bool-cases (ltb next n)) [
  | inr over ↦
      let none_left : n - next ≡ 0 = ground (arith, over) in
      ([], rw over refl, ap (count_from next) (sym none_left))
  | inl more ↦
      let left : 0 < n - next = ground (arith, more) in
      let size = least level.concurrency (n - next) in
      let bounds = least-bounds level.concurrency (n - next) h left in
      let (later, e, is) =
        run_batches-Ends level client n fuel (next + size) h
          (omega (arith, enough, left, bounds.0, bounds.1)) in
      let split : size + (n - (next + size)) ≡ n - next = omega (arith, left, bounds.1) in
      (
        run_batch level client next size ++ later,
        rw more (rw e refl),
        indices-append (run_batch level client next size) later
            ∙ ap (λ (js : List ℕ). js ++ indices later) (run_batch-indices level client next size)
            ∙ ap (λ (js : List ℕ). count_from next size ++ js) is
            ∙ count_from-append next size (n - (next + size))
            ∙ ap (count_from next) split,
      )
]

-- The level comes to its end with one result for each index 0, 1, ..., in order.
abbrev pub Finishes : Level → Client → (requests_per_level : ℕ) → Type 0
Finishes level client requests_per_level =
    (results : List RequestResult) × (run_level level client requests_per_level ≡ some results)
    × (indices results ≡ count_from 0 requests_per_level)

run_level-Finishes :
    (level : Level) (client : Client) (requests_per_level : ℕ)
    → 0 < level.concurrency
    → Finishes level client requests_per_level
unfolding run_level
run_level-Finishes level client requests_per_level h =
    let (results, e, is) =
      run_batches-Ends level client requests_per_level (suc requests_per_level) 0 h (omega arith) in
    let all : requests_per_level - 0 ≡ requests_per_level = omega arith in
    (results, e, is ∙ ap (count_from 0) all)

abbrev is_low : ℤ → Bool
is_low item = leb_ℤ item (pos 0)

positive_nats : (ns : List ℤ) → any is_low ns ≡ false → All (λ k. 0 < k) (to_nats ns)
positive_nats [] h = tt
positive_nats (n ∷ ns) h = (positive n (ground (arith, h)), positive_nats ns (ground (arith, h)))
  where
    positive : (n : ℤ) → is_low n ≡ false → 0 < to_nat n
    positive (pos k) e = ground (arith, e)
    positive (negsuc k) e = absurd (ground (arith, e))

levels-positive :
    (ns : List ℤ) (levels : List ℕ) → positive_levels ns ≡ parsed levels → All (λ k. 0 < k) levels
levels-positive [] levels h = absurd (ground (arith, h))
levels-positive (n ∷ ns) levels h = go (any is_low (n ∷ ns)) refl h
  where
    go :
        (low : Bool)
        → any is_low (n ∷ ns) ≡ low
        → ◌≡◌ {A = Parsed (List ℕ)}
            (if low then refused not_positive else parsed (to_nats (n ∷ ns)))
            (parsed levels)
        → All (λ k. 0 < k) levels
    go true e k = absurd (ground (arith, k))
    go false e k =
        let same : to_nats (n ∷ ns) ≡ levels = ground (arith, k) in
        subst (All (λ j. 0 < j)) same (positive_nats (n ∷ ns) e)

-- Whatever the text of --concurrency-levels is, each level that `parse_int_csv` accepts from it comes
-- to its end, with exactly one result for each request in the order of the indices 0, 1, ...,
-- whatever the gateway answers: no accepted level makes the loop run for ever.
pub parse_int_csv-Finishes :
    (parse_int : Text → Option ℤ) (value : Text) (levels : List ℕ) (model path : String)
    (client : Client) (requests_per_level : ℕ)
    → parse_int_csv parse_int value ≡ parsed levels
    → All
        (λ k.
          Finishes
            (record { model = model; path = path; concurrency = k })
            client
            requests_per_level)
        levels
unfolding parse_int_csv
parse_int_csv-Finishes parse_int value levels model path client requests_per_level h =
    All-map levels
      (λ k positive.
        run_level-Finishes (record { model = model; path = path; concurrency = k }) client
          requests_per_level positive)
      (go (ints parse_int (parse_csv value)) h)
  where
    go :
        (o : Option (List ℤ))
        → ◌≡◌ {A = Parsed (List ℕ)}
            (elim o [ none ↦ refused not_an_integer | some ns ↦ positive_levels ns ])
            (parsed levels)
        → All (λ k. 0 < k) levels
    go none e = absurd (ground (arith, e))
    go (some ns) e = levels-positive ns levels e
