-- ===== src/Proxy/Termination.antt =====
-- The attempts of a request end: each one is on another upstream of the model's pool.
use vllm_source_gateway.Base.{
  ℕ, zero, suc, String, ◌≡◌, refl, sym, subst, ◌≤◌, ◌<◌, List, [], ◌∷◌, false, not, some, string_eq,
  length, get_elem?, count_by, arith, if_rule, beq_refl, some_inj, any, beq,
}
use vllm_source_gateway.Dict.{get}
use vllm_source_gateway.Http.{ok, raises, crashes, cancels, unfinished, and_then}
use vllm_source_gateway.Models.{UpstreamTarget}
use vllm_source_gateway.Admission.Controller.{Controller}
use vllm_source_gateway.Routing.Registry.{RoutingRegistry}
use vllm_source_gateway.Routing.Select.{Selected, is_excluded}
use vllm_source_gateway.Routing.Select as Registry
use vllm_source_gateway.Routing.WellFormed.{IsWellFormed}
use vllm_source_gateway.Routing.Selection.{
  Selects, refuses, selects, moved, select_upstream-Selects,
}
use vllm_source_gateway.Routing.Preserved.{same-IsWellFormed}
use vllm_source_gateway.Proxy.State.{
  Gateway, World, Handled, TransportError, Exchange, answered, broken, call_failed, call_cancelled,
  await,
}
use vllm_source_gateway.Proxy.Body.{raise_accounted, raise_routing_error}
use vllm_source_gateway.Proxy.Upstream.{
  select_upstream, after_selection, raise_upstream_transport_error, is_timeout,
  is_connect_stage_retryable_error,
}
use vllm_source_gateway.Proxy.Failover.{Call, Answer, attempt, after_exchange, give_up, exchange}
use vllm_source_gateway.Proxy.Endpoint.{contact}

-- How many upstreams of a pool are not excluded.
abbrev pub untried : List String → List UpstreamTarget → ℕ
untried excluded = count_by (λ u. not (is_excluded excluded u))

untried-skips :
    (excluded : List String) (name : String) (pool : List UpstreamTarget)
    → untried (name ∷ excluded) pool ≤ untried excluded pool
untried-skips excluded name [] = ground arith
untried-skips excluded name (u ∷ pool) = ground (arith, untried-skips excluded name pool)

-- One that was not excluded and now is counts no more.
pub untried-lt :
    (excluded : List String) (pool : List UpstreamTarget) (i : ℕ) (u : UpstreamTarget)
    → get_elem? pool i ≡ some u
    → is_excluded excluded u ≡ false
    → untried (u.name ∷ excluded) pool < untried excluded pool
untried-lt excluded [] i u at fresh = absurd (ground (arith, at))
untried-lt excluded (x ∷ pool) zero u at fresh =
    let here : x ≡ u = some_inj at in
    subst
      (λ (y : UpstreamTarget). untried (u.name ∷ excluded) (y ∷ pool) < untried excluded (y ∷ pool))
      (sym here) (ground (arith, fresh, beq_refl u.name, untried-skips excluded u.name pool))
untried-lt excluded (x ∷ pool) (suc i) u at fresh =
    ground (arith, untried-lt excluded pool i u at fresh)

untried-le :
    (excluded : List String) (pool : List UpstreamTarget) → untried excluded pool ≤ length pool
untried-le excluded [] = ground arith
untried-le excluded (u ∷ pool) = ground (arith, untried-le excluded pool)

-- No name twice.
abbrev pub IsDistinct : List String → Type 0
IsDistinct [] = Unit {0}
IsDistinct (name ∷ names) = (any (λ n. beq n name) names ≡ false) × IsDistinct names

-- Some attempt of the call met that.
abbrev pub Meets : World → Call → Exchange → Type 0
Meets w call e = (n : ℕ) × (u : UpstreamTarget) × (exchange w call n u ≡ e)

-- The attempts come to an end, with an answer after attempts on distinct upstreams, with an
-- HTTPException, with another exception of the HTTP client, or with a cancellation at one of its calls.
abbrev pub Finishes : World → Call → Handled Answer → Type 0
Finishes w call (ok (response, attempted), g) = IsDistinct attempted
Finishes w call (raises x, g) = Unit {0}
Finishes w call (crashes, g) = Meets w call call_failed
Finishes w call (cancels, g) = Meets w call call_cancelled
Finishes w call (unfinished, g) = zero ≡ suc zero

module _ (m : String) (pool : List UpstreamTarget) where
  -- A well-formed registry that has `pool` for the model.
  abbrev pub Serves : RoutingRegistry → Type 0
  Serves r = IsWellFormed r × (get r.model_to_upstreams m ≡ some pool)

  -- Other tasks keep it so: the selections and the probes of a registry do.
  abbrev pub IsSteady : World → Type 0
  IsSteady w =
      (n : ℕ) (r : RoutingRegistry) (c : Controller) → Serves r → Serves (w.meanwhile n (r, c)).0

  moved-Serves :
      (r : RoutingRegistry) (excluded : List String) (i : ℕ)
      → Serves r
      → Serves (moved r m excluded pool i)
  moved-Serves r excluded i v =
      (same-IsWellFormed (record { names = refl; index = refl; health = refl }) v.0, v.1)

module _ (w : World) (call : Call) (pool : List UpstreamTarget) where
  transport-Finishes :
      (g : Gateway) (exc : TransportError)
      → Finishes w call (
          raise_upstream_transport_error {A = Answer} w g call.department call.model_name
            call.endpoint exc)
  unfolding raise_upstream_transport_error raise_accounted
  transport-Finishes g exc = if_rule (Finishes w call) (is_timeout exc) _ _ (λ _. tt) (λ _. tt)

  -- A selection in the loop: it fails for good, or the rest goes on with a fresh upstream.
  retry-Finishes :
      (attempted : List String) (g : Gateway) (exc : TransportError)
      (retry : UpstreamTarget → Gateway → Handled Answer) (s : Selected)
      → Selects g.routing call.model_name attempted pool s
      → Serves call.model_name pool g.routing
      → ((next : UpstreamTarget) (h : Gateway)
          → Serves call.model_name pool h.routing
          → untried (next.name ∷ attempted) pool < untried attempted pool
          → is_excluded attempted next ≡ false
          → Finishes w call (retry next h))
      → Finishes w call (and_then (give_up w call exc (after_selection g call.model_name s)) retry)
  unfolding give_up after_selection raise_routing_error raise_upstream_transport_error
      raise_accounted
  retry-Finishes attempted g exc retry s (refuses none_left e) v again =
      subst
        (λ (s : Selected).
          Finishes w call
            (and_then (give_up w call exc (after_selection g call.model_name s)) retry))
        (sym e)
        (if_rule (λ (o : Handled UpstreamTarget). Finishes w call (and_then o retry))
          (is_timeout exc) _ _ (λ _. tt) (λ _. tt))
  retry-Finishes attempted g exc retry s (selects k u below at fit skips e) v again =
      subst
        (λ (s : Selected).
          Finishes w call
            (and_then (give_up w call exc (after_selection g call.model_name s)) retry))
        (sym e)
        (again u _ (moved-Serves call.model_name pool g.routing attempted _ v)
          (untried-lt attempted pool _ u at (ground (arith, fit))) (ground (arith, fit)))

  after_exchange-Finishes :
      (attempted : List String) (u : UpstreamTarget) (g : Gateway)
      (retry : UpstreamTarget → Gateway → Handled Answer) (e : Exchange)
      → Meets w call e
      → IsDistinct attempted
      → Serves call.model_name pool g.routing
      → ((next : UpstreamTarget) (h : Gateway)
          → Serves call.model_name pool h.routing
          → untried (next.name ∷ attempted) pool < untried attempted pool
          → is_excluded attempted next ≡ false
          → Finishes w call (retry next h))
      → Finishes w call (after_exchange w call attempted u g retry e)
  unfolding after_exchange select_upstream
  after_exchange-Finishes attempted u g retry (answered response duration) met distinct v again =
      distinct
  after_exchange-Finishes attempted u g retry call_failed met distinct v again = met
  after_exchange-Finishes attempted u g retry call_cancelled met distinct v again = met
  after_exchange-Finishes attempted u g retry (broken exc) met distinct v again =
      let m = call.model_name in
      if_rule (Finishes w call) (is_connect_stage_retryable_error exc) _ _
        (λ _.
          retry-Finishes attempted g exc retry (Registry.select_upstream g.routing m attempted)
            (select_upstream-Selects g.routing m attempted pool v.0 v.1) v again)
        (λ _. transport-Finishes g exc)

  -- With more fuel than there are untried upstreams, the loop ends.
  attempt-Finishes :
      (fuel n : ℕ) (attempted : List String) (u : UpstreamTarget) (g : Gateway)
      → IsSteady call.model_name pool w
      → Serves call.model_name pool g.routing
      → untried attempted pool < fuel
      → IsDistinct attempted
      → Finishes w call (attempt w call fuel n attempted u g)
  unfolding attempt await
  attempt-Finishes zero n attempted u g steady v few distinct = absurd (omega (arith, few))
  attempt-Finishes (suc fuel) n attempted u g steady v few distinct =
      after_exchange-Finishes attempted u (await w (suc n) g) _ (exchange w call n u) (n, u, refl)
        distinct (steady (suc n) g.routing g.admission v)
        λ next h still fewer fresh.
          attempt-Finishes fuel (suc n) (next.name ∷ attempted) next h steady still
            (omega (arith, fewer, few)) (fresh, distinct)

  first-Finishes :
      (g : Gateway) (s : Selected)
      → IsSteady call.model_name pool w
      → Serves call.model_name pool g.routing
      → Selects g.routing call.model_name [] pool s
      → Finishes w call (
          and_then
            (after_selection g call.model_name s)
            λ u h. attempt w call (length pool) zero (u.name ∷ []) u h)
  unfolding after_selection raise_routing_error
  first-Finishes g s steady v (refuses none_left e) =
      subst
        (λ (s : Selected). Finishes w call (
          and_then (after_selection g call.model_name s)
            λ u h. attempt w call (length pool) zero (u.name ∷ []) u h))
        (sym e) tt
  first-Finishes g s steady v (selects k u below at fit skips e) =
      subst
        (λ (s : Selected). Finishes w call (
          and_then (after_selection g call.model_name s)
            λ u h. attempt w call (length pool) zero (u.name ∷ []) u h))
        (sym e)
        (attempt-Finishes (length pool) zero (u.name ∷ []) u _ steady
          (moved-Serves call.model_name pool g.routing [] _ v)
          (omega (arith, untried-lt [] pool _ u at (ground (arith, fit)), untried-le [] pool))
          (refl, tt))

-- For a model with the upstreams `pool`, and where other tasks keep the registry well formed with
-- that pool, the attempts of a request end within as many rounds as the pool has upstreams, whatever
-- the upstreams answer: with an answer after attempts on distinct upstreams, with an HTTPException, with
-- an exception of the HTTP client that is no httpx.HTTPError and that one of its calls did raise, or
-- with a cancellation that came at one of its calls. The loop never asks for another round, and the
-- registry raises no KeyError, IndexError or ZeroDivisionError.
pub contact-Finishes :
    (w : World) (call : Call) (pool : List UpstreamTarget) (g : Gateway)
    → IsSteady call.model_name pool w
    → Serves call.model_name pool g.routing
    → Finishes w call (contact w call g)
unfolding contact select_upstream
contact-Finishes w call pool g steady v =
    subst
      (λ (fuel : ℕ). Finishes w call (
        and_then (select_upstream g call.model_name [])
          λ u h. attempt w call fuel zero (u.name ∷ []) u h))
      (rw v.1 refl)
      (first-Finishes w call pool g (Registry.select_upstream g.routing call.model_name []) steady v
        (select_upstream-Selects g.routing call.model_name [] pool v.0 v.1))
