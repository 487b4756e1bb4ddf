-- ===== src/Admission.antt =====
-- src/vllm_source_gateway/services/admission_control.py: `AdmissionController`. A call that reads
-- the clock takes `now`; the lock makes each call one step, so a history of calls is a sequence.
pub mod Config
pub mod Controller
pub mod Shape
pub mod Acquire
pub mod Accounting
pub mod Cases
pub mod Frames
pub mod Leases
pub mod System
pub mod Window
pub mod Budget
pub mod History
pub mod BudgetHistory
pub mod BudgetKept
pub mod Quota
pub mod Guard
pub mod Dropped
pub mod Failures
pub mod OutputCap
pub mod Caps
