-- ===== src/Lib.antt =====
-- Global News Intelligence Platform: verification of its acquisition control, its monitors and
-- their alerts, its scheduler, and the policies of its calendar.
--
-- The program polls news sources and delivers alerts. Celery's scheduler claims due endpoints in
-- Redis and queues a polling task for each; a polling task takes a lease on its endpoint in
-- PostgreSQL and asks the rate service before each request; new matches of monitors become alerts,
-- which other workers deliver to ntfy destinations. Workers are many and may die at any point, so
-- that each of these parts has a claim that expires, a token that tells its holder, and a rule for
-- who takes over.
--
-- What is modelled, and where:
--   Lease       app/services/acquisition_lease_service.py: `acquire`, `heartbeat`, `finalize`.
--               Lease/Tables has the tables of app/models/acquisition_control.py with their
--               constraints, Lease/Operations the sequences of transactions.
--   RateLimit   app/services/acquisition_rate_limit_service.py: `reserve`, `finalize`,
--               `observe_hold`. RateLimit/Windows is one bucket under its policy, RateLimit/Targets
--               the scopes of a request, RateLimit/Provision the default bindings and buckets,
--               RateLimit/Rows the rows that `reserve` locks, RateLimit/Release the two others.
--   Monitors    app/services/monitor_service.py and app/repositories/monitor_repository.py.
--               Monitors/Tables has the tables with their constraints, Monitors/CriteriaTables the
--               criteria of revisions and their rows, Monitors/Revisions the creation, the update and
--               the revision of monitors, Monitors/Evaluation the matches of an evaluation with the
--               alerts that it creates, Monitors the life of a monitor, and Monitors/Transactions
--               the sequences of transactions.
--   Alerts      app/services/alert_service.py and app/repositories/alert_repository.py: the creation
--               of alerts (Alerts/Creation), the query for due deliveries (Alerts/Due), `_prepare_delivery`
--               (Alerts/Claims), `_retry_delay` and `_finalize_delivery` (Alerts/Outcomes),
--               `deliver_alert_delivery` and `retry_delivery` (Alerts), the destinations
--               (Alerts/Destinations) and the routes of a monitor to them (Alerts/Routing).
--   Workers     workers/locks.py (Workers/Claims), `dispatch_due_source_endpoints` of
--               workers/scheduler/tasks.py and `poll_source_endpoint_task` of
--               workers/ingestion/tasks.py (Workers/Dispatch).
--   Matching    `_expand_integer_hierarchy` of app/services/document_matching_service.py, the ids that
--               a criterion of a monitor selects with their descendants, and its text filter with
--               `_escape_like` (Matching/Text).
--   Ingestion   `_failure_delay_seconds` of app/services/ingestion_service.py.
--   CalendarPolicy
--               app/services/calendar_policy_service.py: what an occurrence of an event overrides of
--               the event's coverage policy, with its history. CalendarPolicy/Tables has the tables,
--               CalendarPolicy/Transactions the sequences of changes.
--   Prelude     what they share: tables as lists with look-ups and updates, exceptions as values,
--               times and durations.
--
-- How the code is represented:
--   - A table is a list of rows in the order of their ids, and a transaction a function from the
--     tables to new tables and a result, or an exception, which leaves the tables as they were. Row
--     and advisory locks make the transactions on one endpoint or one delivery follow each other, so
--     that what several workers do is a sequence of transactions.
--   - The clock, `uuid4` and defaults that the server draws are arguments. A time is a number of
--     microseconds; sums are unbounded, where Python stops at the year 9999. Tokens, task ids and row
--     ids are natural numbers.
--   - Constraints of the database that the code can meet are checks that raise `integrity_error`, and
--     the trigger of the leases one that raises `trigger_error`. The checks on a delivery's row are
--     tested when it is inserted; the later writes keep them, as Alerts/History shows.
--   - What does not come from the repository is a parameter: `urlsplit`, the answers of the HTTP
--     client and of the broker, the environment, and the readings of a `Retry-After` header.
--     So are `ILIKE` of PostgreSQL, under what its manual says, and the plan of
--     `build_document_match_plan`, which tells whether a document matches.
--   - A savepoint that raises is undone, and the code that catches the exception goes on from the
--     tables before it.
--   - Loops run over lists, so that no fuel is needed, except for the work list of Matching: its fuel
--     is the number of selected ids and of rows, and Matching/Fuel shows that this is enough.
--
-- Not modelled: the order of the rows that a query without `ORDER BY` reads, which is taken as that
-- of their insertion; log messages and the texts of exceptions; JSON metadata that is only stored;
-- the printed form of a scope; and the services of the components not named above: the rest of feed
-- ingestion, the other parts of matching, the source lifecycle, classification, the
-- other parts of the calendar, artifacts, egress, the web interface, the API, schemas and migrations.
pub mod Prelude
pub mod Alerts
pub mod CalendarPolicy
pub mod Ingestion
pub mod Lease
pub mod Matching
pub mod Monitors
pub mod RateLimit
pub mod Workers
