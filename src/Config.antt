-- ===== src/Config.antt =====
-- src/vllm_source_gateway/config.py: the validators, which normalize the sections of the
-- configuration and check them against each other. The fields satisfy their types and their
-- `Field` constraints, which pydantic checks first.
pub mod Names
pub mod Validated
pub mod Department
pub mod Upstream
pub mod Limits
pub mod Sections
pub mod App
pub mod Keys
pub mod Mapped
pub mod Presented
pub mod Unique
pub mod Applied
pub mod Known
