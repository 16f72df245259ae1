-- ===== src/Worker.antt =====
-- cmd/worker: the process that runs the jobs and recovers the abandoned ones.
pub mod Consuming
pub mod Dispatch
pub mod Sweeper
