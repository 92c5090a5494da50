-- ===== src/Jobs.antt =====
-- src/jobhandler: the jobs, the handler that makes and runs them, and the worker that takes them
-- from a queue.
pub mod Job
pub mod Handler
pub mod Metrics
pub mod Flow
pub mod Worker
