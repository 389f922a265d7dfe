-- ===== src/Ingestion/Examples.antt =====
-- An endpoint that is polled every quarter of an hour.
use global_news_intelligence.Prelude.{◌≡◌, refl}
use global_news_intelligence.Ingestion.{failure_delay_seconds}

third_failure : failure_delay_seconds 900 3 ≡ 3600
unfolding failure_delay_seconds
third_failure = refl
