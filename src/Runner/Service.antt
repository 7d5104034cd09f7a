-- ===== src/Runner/Service.antt =====
-- Run, runWithLeaderElection and runController of pkg/runner/service.go. The leader elector, the
-- informer, the work queue, the clientset and the HTTP server are arguments or steps of the
-- environment.
pub mod Controller
pub mod Election
pub mod Run
