-- ===== src/Common.antt =====
-- src/common: the domain models and the pure business rules that backend and worker share.
pub mod Float
pub mod Models
pub mod Errors
pub mod StateMachine
pub mod Heartbeat
pub mod Quota
pub mod Validation
pub mod Limits
pub mod Json
pub mod PolicyShapes
mod Tests
