-- ===== src/Engine.antt =====
-- internal/stateengine: the step from one instance state to the next.
pub mod World
pub mod Provision
pub mod Network
pub mod Step
pub mod Evidence
pub mod Validating
pub mod Workload
pub mod Gate
pub mod Rollback
pub mod Quarantine
pub mod Advance
