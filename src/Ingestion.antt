-- ===== src/Ingestion.antt =====
-- app/services/ingestion_service.py: the delay before a failing endpoint is polled again.
pub mod Backoff
mod Examples
use global_news_intelligence.Prelude.{ℕ, ◌-◌, ◌*◌, ◌^◌, min}

-- `_failure_delay_seconds`. The two arguments are not negative: the interval is at least 60 by a
-- constraint of its column, and the other one counts failures.
pub failure_delay_seconds : ℕ → ℕ → ℕ
failure_delay_seconds poll_interval_seconds consecutive_failures =
    let exponent = min (consecutive_failures - 1) 6 in
    min (poll_interval_seconds * (2 ^ exponent)) 86400
