-- ===== src/Alerts.antt =====
-- app/services/alert_service.py and the queries of app/repositories/alert_repository.py that it
-- runs: alerts for new matches, and their delivery to destinations. Each function is one
-- transaction, with the row that it changes locked; `deliver` is two, with the request between.
mod Formats
pub mod Tables
mod Claims
mod Outcomes
pub mod Creation
pub mod Sound
pub mod Attempts
mod Rows
mod Opening
pub mod Invariant
pub mod History
pub mod Delays
pub mod Shown
pub mod Claiming
pub mod Again
pub mod Alerted
pub mod Due
pub mod Routing
pub mod Destinations
mod Administration
mod Examples
unfoldable pub use Claims.*
unfoldable pub use Outcomes.*
use Prim.Native.String.{◌++◌ as append}
use global_news_intelligence.Prelude.{
  ℕ, ◌+◌, ◌-◌, ◌*◌, ◌^◌, ◌/◌, min, max, String, str_eq, ◌==◌, Bool, true, false, not, ◌&&◌, ◌||◌,
  Option, none, some, List, [], ◌∷◌, ◌++◌, find?, any, update, filter, is_some, map, Result, ok,
  err, ◌>>=◌, ◌>>◌, raise_if, or_raise, not_found, runtime_error, integrity_error, invalid_update,
  Time, ℤ, pos, negsuc, seconds, ltb, leb, if◌then◌else◌, or_else,
}
use Tables.{
  Priority, ntfy_priority, Route, Match, Monitor, DeliveryStatus, AttemptStatus, Destination, Alert,
  Delivery, Attempt, Document, AlertDb, is_processing, is_delivered, is_waiting, is_final, has_id,
  runs, put_delivery, put_attempt, is_http_status, create_attempt, truncate, prefix,
}

-- The keyword arguments of the request to ntfy. `sequence` is printed as
-- `gni-alert-...-destination-...`.
pub record Request : Type 0 where
  pub url : String
  pub authorization : Option String
  pub topic : String
  pub title : String
  pub message : String
  pub priority : ℕ
  pub sequence : ℕ × ℕ
  pub click : Option String
  pub timeout : ℕ

-- What `httpx` answers: a response, or a `RequestError` with its text.
pub data Response : Type 0 where
  responded : (status : ℕ) (body : String) (retry_after : Option String) → Response
  request_error : (error : String) → Response

-- `value if value else None`
unfoldable pub truthy : Option String → Option String
truthy none = none
truthy (some text) = if str_eq text "" then none else some text

pub request_of : PreparedDelivery → Option String → Request
unfolding truthy
request_of p token = record {
  url = p.base_url;
  authorization = token;
  topic = p.topic;
  title = p.title;
  message = p.message;
  priority = ntfy_priority p.priority;
  sequence = (p.alert_id, p.destination_id);
  click = truthy p.click_url;
  timeout = p.timeout_seconds;
}

-- The outcome of an HTTP status.
unfoldable pub outcome_of : ℕ → Outcome
outcome_of status =
    if leb 200 status && ltb status 300
    then succeeded
    else if status == 408 || status == 425 || status == 429 || leb 500 status
    then retryable_failure
    else permanent_failure

-- The text that is recorded for a response.
pub error_of : (ℕ → String) → ℕ → Outcome → Option String
error_of show status succeeded = none
error_of show status retryable_failure =
    some (append "ntfy returned retryable HTTP " (append (show status) "."))
error_of show status permanent_failure =
    some (append "ntfy returned permanent HTTP " (append (show status) "."))

unfoldable pub report_of : (ℕ → String) → Response → Report
unfolding outcome_of error_of
report_of show (responded status body retry_after) = record {
  outcome = outcome_of status;
  http_status = some status;
  error = error_of show status (outcome_of status);
  response_excerpt = truncate (some body) max_text;
  retry_after = retry_after;
}
report_of show (request_error text) = record {
  outcome = retryable_failure;
  http_status = none;
  error = some text;
  response_excerpt = none;
  retry_after = none;
}

pub missing_token : String → Report
missing_token name = record {
  outcome = permanent_failure;
  http_status = none;
  error = some (append "Configured ntfy token environment variable " (append name " is missing."));
  response_excerpt = none;
  retry_after = none;
}

-- What a delivery depends on: the process environment, `str` on an integer, the HTTP client, which
-- may raise an exception that is no `RequestError`, and the readings of a `Retry-After` header.
pub record World : Type 0 where
  pub environment : String → Option String
  pub show : ℕ → String
  pub post : Request → Result Response
  pub headers : HeaderReader

-- The part of `deliver_alert_delivery` between the two transactions.
unfoldable pub send : World → PreparedDelivery → Option String → Result Report
unfolding request_of missing_token
send w p none = do r ← w.post (request_of p none); ok (report_of w.show r)
send w p (some name) = send_with w p name (truthy (w.environment name))
  where
    send_with : World → PreparedDelivery → String → Option String → Result Report
    send_with w p name none = ok (missing_token name)
    send_with w p name (some token) = do
      r ← w.post (request_of p (some (append "Bearer " token)))
      ok (report_of w.show r)

abbrev conclude : AlertDb → Result (AlertDb × DeliveryResult) → AlertDb × Result DeliveryResult
conclude s (err e) = (s, err e)
conclude s (ok (s', r)) = (s', ok r)

-- What was sent came to a report, or an exception leaves the claim as it is.
pub settle :
    World
    → PreparedDelivery
    → Time
    → Time
    → AlertDb
    → Result Report
    → AlertDb × Result DeliveryResult
settle w p now retry_now s (err e) = (s, err e)
settle w p now retry_now s (ok r) = conclude s (finalize w.headers p r now retry_now s)

-- The second transaction, at `now`, after what other workers did in the meantime.
pub complete :
    World
    → (AlertDb → AlertDb)
    → Time
    → Time
    → AlertDb
    → Result (AlertDb × Preparation)
    → AlertDb × Result DeliveryResult
unfolding settle
complete w meanwhile now retry_now s (err e) = (s, err e)
complete w meanwhile now retry_now s (ok (s', reported r)) = (s', ok r)
complete w meanwhile now retry_now s (ok (s', prepared p)) =
    settle w p now retry_now (meanwhile s') (send w p p.auth_token_env_var)

-- `deliver_alert_delivery`: the first transaction stands even if the second one raises.
pub deliver :
    World
    → (AlertDb → AlertDb)
    → ℕ
    → ℕ
    → Time
    → Time
    → Time
    → AlertDb
    → AlertDb × Result DeliveryResult
unfolding complete
deliver w meanwhile id token claimed now retry_now s =
    complete w meanwhile now retry_now s (prepare id claimed token s)

-- The row that `retry_delivery` leaves.
pub restart : Time → Delivery → Delivery
restart now d = record d {
  status = DeliveryStatus.pending;
  cycle_attempt_count = 0;
  next_attempt_at = some now;
  claimed_at = none;
  claim_expires_at = none;
  claim_token = none;
  delivered_at = none;
  last_error = none;
}

-- `destination is not None and destination.is_active`
abbrev is_usable : Option Destination → Bool
is_usable none = false
is_usable (some x) = x.is_active

-- `retry_delivery`
pub retry : ℕ → Time → AlertDb → Result (AlertDb × Delivery)
unfolding restart
retry id now s = do
  d ← or_raise (find? (has_id id) s.deliveries) not_found
  raise_if (is_processing d.status) invalid_update
  raise_if (is_delivered d.status) invalid_update
  raise_if (not (is_usable (find? (λ (x : Destination). x.id == d.destination_id) s.destinations)))
      invalid_update
  ok (put_delivery (restart now d) s, restart now d)
