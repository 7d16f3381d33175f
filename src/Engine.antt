-- ===== src/Engine.antt =====
-- internal/engine: the work queue, the engine's state, and the pipeline that each change runs
-- through.
pub mod Queue
pub mod Parts
pub mod Pipeline
pub mod Process
pub mod Running
pub mod Tasks
pub mod Polling
pub mod Webhooks
pub mod Draining
pub mod DryRuns
