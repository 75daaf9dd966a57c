-- ===== src/Release/Service.antt =====
-- internal/release/service.go and rollback.go: the operations, one child module for each part.
pub mod Transition
pub mod Create
pub mod Plan
pub mod Dispatch
pub mod Finalize
pub mod Rollback
