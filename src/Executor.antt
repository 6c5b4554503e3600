-- ===== src/Executor.antt =====
-- pkg/orchestrator/executor.go
pub mod Isolation
pub mod Prefix
pub mod Convert
pub mod Backend
pub mod Resources
pub mod Create
pub mod Phases
pub mod Delete
pub mod States
pub mod Readiness
pub mod Completion
pub mod Outcome
pub mod Reports
pub mod Removal
pub mod Rollback
pub mod Defaults
