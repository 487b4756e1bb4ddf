-- ===== src/Proxy.antt =====
-- src/vllm_source_gateway/services/proxy.py: the way of a request through the gateway.
pub mod State
pub mod Headers
pub mod Body
pub mod Upstream
pub mod Failover
pub mod Endpoint
pub mod Asked
pub mod Balance
pub mod Stages
pub mod Settled
pub mod Requests
pub mod Secrets
pub mod Termination
pub mod Refused
