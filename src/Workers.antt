-- ===== src/Workers.antt =====
-- The Celery side: workers/locks.py, workers/scheduler/tasks.py and workers/ingestion/tasks.py. The
-- claims in Redis keep an endpoint from being queued or polled twice.
pub mod Claims
pub mod Dispatch
pub mod Tally
mod Lasting
pub mod Exclusion
mod Examples
