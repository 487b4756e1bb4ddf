-- ===== src/Examples.antt =====
-- Runs of the components on small inputs, and the theorems applied to them.
pub mod Admission
pub mod Routing
pub mod Sse
pub mod Config
pub mod Tools
pub mod Stream
pub mod Middleware
pub mod Proxy
