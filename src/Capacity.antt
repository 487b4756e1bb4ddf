-- ===== src/Capacity.antt =====
-- tools/capacity_baseline.py: the load test of the gateway.
pub mod Args
pub mod Request
pub mod Level
pub mod Summary
pub mod Finished
