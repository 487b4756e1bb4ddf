-- ===== src/Routing.antt =====
-- src/vllm_source_gateway/routing.py: which upstream serves a model. The lock makes each method one
-- step; a method that changes the registry returns the new one.
pub mod Registry
pub mod Select
pub mod WellFormed
pub mod Scan
pub mod Selection
pub mod Preserved
pub mod Availability
pub mod Fairness
pub mod Reached
