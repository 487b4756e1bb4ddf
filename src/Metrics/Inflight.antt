-- ===== src/Metrics/Inflight.antt =====
-- The gauge `inflight_requests`: prometheus_client adds 1 for each `.inc()` and takes 1 off for each
-- `.dec()` on the same labels.
use vllm_source_gateway.Base.{ℕ, String, Bool, false, ◌&&◌, beq, count_by, string_eq}
use vllm_source_gateway.Metrics.{
  Sample, GatewayMetrics, inflight_requests_inc, inflight_requests_dec,
}

abbrev pub is_inc : (department model_name endpoint : String) → Sample → Bool
is_inc d m e (inflight_requests_inc a b c) = beq a d && beq b m && beq c e
is_inc d m e _ = false

abbrev pub is_dec : (department model_name endpoint : String) → Sample → Bool
is_dec d m e (inflight_requests_dec a b c) = beq a d && beq b m && beq c e
is_dec d m e _ = false

abbrev pub inflight_incs : (department model_name endpoint : String) → GatewayMetrics → ℕ
inflight_incs d m e = count_by (is_inc d m e)

abbrev pub inflight_decs : (department model_name endpoint : String) → GatewayMetrics → ℕ
inflight_decs d m e = count_by (is_dec d m e)
