-- ===== src/Runner/Worker.antt =====
-- processPod and do of pkg/runner/worker.go. The API server, the exec stream into the pod, the clock,
-- the jitter and the work queue are arguments; the set of processed pods and the counters are state.
pub mod Process
pub mod Accounts
pub mod Once
pub mod Exported
pub mod Delivered
pub mod Timed
pub mod Rows
pub mod Loop
pub mod Concurrent
pub mod Counters
