-- ===== src/Proxy/Refused.antt =====
-- Requests that are turned away before admission.
use vllm_source_gateway.Base.{
  ℕ, ◌≡◌, ◌≤◌, ◌<◌, ◌⊎◌, List, none, some, true, false, length, string_eq,
}
use vllm_source_gateway.Json.{Value, loads_value, decode_error, value_error, recursion_error}
use vllm_source_gateway.Http.{ok, raises, crashes, HttpException}
use vllm_source_gateway.Proxy.State.{Gateway, World, ProxyConfig, Request, Handled, await}
use vllm_source_gateway.Proxy.Body.{content_length_exceeds_limit}

-- What reading a body comes to.
pub data Read (w : World) (config : ProxyConfig) (request : Request) (g : Gateway)
    (o : Handled (Value × ℕ)) : Type 0 where
  loaded :
      (body : List ℕ) (v : Value)
      → content_length_exceeds_limit w request config.max_request_body_bytes ≡ false
      → request.body ≡ some body
      → length body ≤ config.max_request_body_bytes
      → w.json_loads body ≡ loads_value v
      → o ≡ (ok (v, length body), await w 0 g)
      → Read w config request g o
  announced_too_large :
      (x : HttpException)
      → content_length_exceeds_limit w request config.max_request_body_bytes ≡ true
      → x.status_code ≡ 413
      → o ≡ (raises x, g)
      → Read w config request g o
  too_large :
      (body : List ℕ) (x : HttpException)
      → content_length_exceeds_limit w request config.max_request_body_bytes ≡ false
      → request.body ≡ some body
      → config.max_request_body_bytes < length body
      → x.status_code ≡ 413
      → o ≡ (raises x, await w 0 g)
      → Read w config request g o
  unreadable :
      (x : HttpException)
      → content_length_exceeds_limit w request config.max_request_body_bytes ≡ false
      → (request.body ≡ none)
        ⊎ ((body : List ℕ) × (request.body ≡ some body)
            × (length body ≤ config.max_request_body_bytes)
            × ((w.json_loads body ≡ decode_error) ⊎ (w.json_loads body ≡ value_error)))
      → x.status_code ≡ 400
      → o ≡ (raises x, await w 0 g)
      → Read w config request g o
  too_deep :
      (body : List ℕ)
      → content_length_exceeds_limit w request config.max_request_body_bytes ≡ false
      → request.body ≡ some body
      → length body ≤ config.max_request_body_bytes
      → w.json_loads body ≡ recursion_error
      → o ≡ (crashes, await w 0 g)
      → Read w config request g o
