-- ===== src/Engine.antt =====
-- internal/engine: the orchestrator's state machine over one job.
pub mod States
pub mod Job
pub mod Controls
pub mod Gates
pub mod Tick
pub mod Verify
pub mod Step
pub mod Bench
pub mod Rules
pub mod Guard
pub mod Context
pub mod Handlers
mod Examples
