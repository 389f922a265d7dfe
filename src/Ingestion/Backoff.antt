-- ===== src/Ingestion/Backoff.antt =====
-- `_failure_delay_seconds` as a function of the number of failures.
