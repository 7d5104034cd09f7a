-- ===== src/Runner.antt =====
-- pkg/runner: configuration, the set of processed pods, export and the worker.
pub mod Config
pub mod Seen
pub mod Pod
pub mod Export
pub mod Worker
pub mod Client
pub mod Service
