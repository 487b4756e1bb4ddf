-- ===== src/Stream.antt =====
-- `_stream_bytes` of src/vllm_source_gateway/services/proxy.py: the generator that passes the
-- upstream's answer on, chunk by chunk, and accounts for it at the end.
pub mod Utf8
pub mod State
pub mod Pump
pub mod Finish
pub mod Rule
pub mod Settled
pub mod Passed
pub mod Decoded
pub mod Parsed
pub mod Whole
pub mod Bounded
pub mod Served
pub mod Accounted
