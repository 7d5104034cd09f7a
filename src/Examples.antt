-- ===== src/Examples.antt =====
-- The theorems on concrete inputs.
mod Gpu
mod Labels
mod Update
mod Provider
mod Seen
mod Runner
mod Queue
mod Fleet
mod Counters
mod Exported
mod Delivered
mod Config
mod Postgres
mod Exporters
mod Controller
mod Election
mod Concurrent
mod Runs
mod Run
mod Lease
mod Query
mod Server
