-- ===== src/Proxy/Requests.antt =====
-- `proxy_json_endpoint` gives back the lease that it took, whatever happens to the request.
use vllm_source_gateway.Base.{
  sym, subst, ◌≡◌, ◌∙◌, Bool, ℕ, String, refl, Option, not, if_rule, option_rule, ltb, length, List,
  beq, string_eq, true, false,
}
use vllm_source_gateway.Json.{loads_rule, Value, Fields, as_dict}
use vllm_source_gateway.Http.{OnOk, ok, raises, crashes, cancels, unfinished, and_then}
use vllm_source_gateway.Source.{SourceResolutionResult}
use vllm_source_gateway.RequestMetrics.{set_request_metrics_model}
use vllm_source_gateway.Admission.Controller.{Controller, AdmissionLease}
use vllm_source_gateway.Admission.Shape.{check_request_shape}
use vllm_source_gateway.Admission.Acquire.{acquire, release, Acquired}
use vllm_source_gateway.Admission.Frames.{check_request_shape-Frame}
use vllm_source_gateway.Proxy.Asked.{
  asks_in, asks_for_stream, read-tells, parse-tells, enforce-tells, ensure_known_model-tells,
  shape-tells, check_request_shape-stream,
}
use vllm_source_gateway.Routing.Registry.{Routed, done, fails, get_model_upstreams}
use vllm_source_gateway.Models.{UpstreamTarget}
use vllm_source_gateway.Proxy.State.{
  Gateway, World, ProxyConfig, Request, Handled, await, on_admission, with_request,
}
use vllm_source_gateway.Proxy.Body.{
  enforce_source_resolution_policy, read_json_request_body, load_body, parse_json_payload, model_of,
  ensure_known_model, raise_routing_error, request_body_too_large, content_length_exceeds_limit,
}
use vllm_source_gateway.Proxy.Endpoint.{
  Reply, Route, serve, admit_and_serve, note_source, proxy_json_endpoint, proxy_streaming,
  wants_stream, call_of,
}
use vllm_source_gateway.Proxy.Balance.{
  SameActive, same_refl, same_trans, Frame-SameActive, Keeps, Leased, acquire-Leased,
}
use vllm_source_gateway.Proxy.Stages.{
  IsQuiet, gauge-SameActive, await-Keeps, raise_routing_error-Keeps,
}
use vllm_source_gateway.Proxy.Settled.{
  Settles, Settled, Settled-trans, Cancelled-same, proxy_json-Settles, proxy_streaming-Settles,
}

and_then-Settles :
    {A : Type 0} (Q : A → Type 0) (g : Gateway) (b : Bool) (m : Handled A)
    (k : A → Gateway → Handled Reply)
    → Keeps g m
    → OnOk Q m
    → ((a : A) (s : Gateway) → Q a → Settles s b (k a s))
    → Settles g b (and_then m k)
and_then-Settles Q g b (ok a, s) k same told rest =
    Settled-trans g.admission s.admission b (k a s) same (rest a s told)
and_then-Settles Q g b (raises x, s) k same told rest = same
and_then-Settles Q g b (crashes, s) k same told rest = same
and_then-Settles Q g b (cancels, s) k same told rest = Cancelled-same g.admission s.admission b same
and_then-Settles Q g b (unfinished, s) k same told rest = same

-- The stages before admission.
enforce-Keeps :
    (config : ProxyConfig) (source : SourceResolutionResult) (g : Gateway)
    → Keeps g (enforce_source_resolution_policy config source g)
unfolding enforce_source_resolution_policy
enforce-Keeps config source g =
    let P : Handled (Unit {0}) → Type 0 = Keeps g in
    if_rule P (not config.reject_unknown_api_keys) _ _ (λ _. same_refl g.admission)
      λ _.
        if_rule P (not (beq source.resolution_source "unknown")) _ _ (λ _. same_refl g.admission)
          (λ _. same_refl g.admission)

load_body-Keeps :
    (w : World) (config : ProxyConfig) (g : Gateway) (body : List ℕ)
    → Keeps g (load_body w config g body)
unfolding load_body request_body_too_large
load_body-Keeps w config g body =
    let P : Handled (Value × ℕ) → Type 0 = Keeps g in
    if_rule P (ltb config.max_request_body_bytes (length body)) _ _ (λ _. same_refl g.admission)
      λ _.
        loads_rule P (w.json_loads body) _ _ _ _ (λ v _. same_refl g.admission)
          (λ _. same_refl g.admission) (λ _. same_refl g.admission) λ _. same_refl g.admission

read-Keeps :
    (w : World) (config : ProxyConfig) (request : Request) (g : Gateway)
    → IsQuiet w
    → Keeps g (read_json_request_body w config request g)
unfolding read_json_request_body request_body_too_large
read-Keeps w config request g quiet =
    let P : Handled (Value × ℕ) → Type 0 = Keeps g in
    if_rule P (content_length_exceeds_limit w request config.max_request_body_bytes) _ _
      (λ _. same_refl g.admission)
      λ _.
        option_rule P request.body _ _ (λ _. await-Keeps w 0 g quiet)
          λ body _.
            same_trans (await-Keeps w 0 g quiet) (load_body-Keeps w config (await w 0 g) body)

parse-Keeps : (g : Gateway) (payload : Value) → Keeps g (parse_json_payload g payload)
unfolding parse_json_payload
parse-Keeps g payload =
    let P : Handled (Fields × String) → Type 0 = Keeps g in
    option_rule P (as_dict payload) _ _ (λ _. same_refl g.admission)
      λ fields _.
        option_rule P (model_of fields) _ _ (λ _. same_refl g.admission)
          λ m _. same_refl g.admission

ensure_known_model-Keeps : (g : Gateway) (m : String) → Keeps g (ensure_known_model g m)
unfolding ensure_known_model
ensure_known_model-Keeps g m = go (get_model_upstreams g.routing m)
  where
    go :
        (r : Routed (List UpstreamTarget))
        → Keeps {A = Unit {0}} g
            (elim r [ done pool ↦ (ok tt, g) | fails error ↦ raise_routing_error g error ])
    go (done pool) = same_refl g.admission
    go (fails error) = raise_routing_error-Keeps (Unit {0}) g error

module _ (w : World) (quiet : IsQuiet w) (request : Request) (route : Route) (d m : String) where
  serve-Settles :
      (c : Controller) (payload : Fields) (lease : Option AdmissionLease) (g : Gateway)
      → ((q : Controller) → SameActive g.admission q → SameActive c (release q lease))
      → Settled c (wants_stream payload) (serve w request route d m payload lease g)
  unfolding serve
  serve-Settles c payload lease g leased =
      if_rule (Settled c (wants_stream payload)) (wants_stream payload) _ _
        (λ streams.
          subst
            (λ (b : Bool).
              Settled c b (proxy_streaming w (call_of request route d m payload false) lease g))
            (sym streams)
            (proxy_streaming-Settles w quiet (call_of request route d m payload false) lease c g
              leased))
        (λ _.
          proxy_json-Settles w quiet (call_of request route d m payload true) lease c g leased
            (wants_stream payload) route.usage_extractor)

  acquired-Settles :
      (payload : Fields) (g : Gateway) (o : Acquired)
      → Leased g.admission o
      → Settles g
          (wants_stream payload)
          (and_then (on_admission g o) λ lease t. serve w request route d m payload lease t)
  unfolding on_admission
  acquired-Settles payload g (ok lease, c) leased =
      serve-Settles g.admission payload lease (record g { admission = c }) leased
  acquired-Settles payload g (raises x, c) leased = leased
  acquired-Settles payload g (crashes, c) leased = leased
  acquired-Settles payload g (cancels, c) leased =
      Cancelled-same g.admission c (wants_stream payload) leased
  acquired-Settles payload g (unfinished, c) leased = leased

  admit_and_serve-Settles :
      (body_size : ℕ) (payload : Fields) (g : Gateway)
      → Settles g (wants_stream payload) (admit_and_serve w request route d body_size payload m g)
  unfolding admit_and_serve on_admission
  admit_and_serve-Settles body_size payload g =
      and_then-Settles (λ _. Unit {0}) g (wants_stream payload) (ensure_known_model g m) _
        (ensure_known_model-Keeps g m) (ensure_known_model-tells g m)
        λ _ known _.
          let checked = check_request_shape known.admission d m route.endpoint body_size payload in
          and_then-Settles (λ shaped. wants_stream payload ≡ wants_stream shaped) known
            (wants_stream payload)
            (on_admission (with_request known (λ s. set_request_metrics_model s m)) checked)
            (λ shaped s.
              and_then (on_admission s (acquire s.admission w.acquired_at d m route.endpoint))
                λ lease t. serve w request route d m shaped lease t)
            (Frame-SameActive
              (check_request_shape-Frame known.admission d m route.endpoint body_size payload))
            (shape-tells (with_request known (λ s. set_request_metrics_model s m)) payload checked
              (check_request_shape-stream known.admission d m route.endpoint body_size payload))
            λ shaped s same.
              subst
                (λ (b : Bool). Settles s b (
                  and_then (on_admission s (acquire s.admission w.acquired_at d m route.endpoint))
                    λ lease t. serve w request route d m shaped lease t))
                (sym same)
                (acquired-Settles shaped s (acquire s.admission w.acquired_at d m route.endpoint)
                  (acquire-Leased s.admission w.acquired_at d m route.endpoint))

-- Where other tasks leave, in sum, the active requests as they were, so does a request to the proxy,
-- with any answers and exceptions of the HTTP client and whatever it comes to: a response, an
-- HTTPException, another exception, or a stream once it has given its lease back, at any time later.
-- After it, each model and each department and model have as many active requests as before, and the
-- gauge stands where it stood. A request that is cancelled does so too, unless its body asks for a
-- stream: then it leaves at most one lease that is not given back.
pub proxy_json_endpoint-Settles :
    (w : World) (config : ProxyConfig) (request : Request) (source : SourceResolutionResult)
    (route : Route) (g : Gateway)
    → IsQuiet w
    → Settles g (asks_for_stream w request) (proxy_json_endpoint w config request source route g)
unfolding proxy_json_endpoint note_source
proxy_json_endpoint-Settles w config request source route g quiet =
    let noted = note_source source route.endpoint g in
    let asks = asks_for_stream w request in
    Settled-trans g.admission noted.admission asks _
      (gauge-SameActive g.admission _ λ d o e. (refl, refl))
      (and_then-Settles (λ _. Unit {0}) noted asks
        (enforce_source_resolution_policy config source noted) _ (enforce-Keeps config source noted)
        (enforce-tells config source noted)
        λ _ s _.
          and_then-Settles (λ r. asks ≡ asks_in r.0) s asks
            (read_json_request_body w config request s) _ (read-Keeps w config request s quiet)
            (read-tells w config request s)
            λ body t told.
              and_then-Settles (λ r. asks_in body.0 ≡ wants_stream r.0) t asks
                (parse_json_payload t (body.0)) _ (parse-Keeps t (body.0)) (parse-tells t (body.0))
                λ parsed u same.
                  subst
                    (λ (b : Bool). Settles u b (
                      admit_and_serve w request route source.department (body.1) (parsed.0)
                        (parsed.1) u))
                    (sym (told ∙ same))
                    (admit_and_serve-Settles w quiet request route source.department (parsed.1)
                      (body.1) (parsed.0) u))
