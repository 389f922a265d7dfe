-- ===== src/Alerts/Outcomes.antt =====
-- `_retry_delay` and `_finalize_delivery` of app/services/alert_service.py: what a request came to is
-- recorded and the claim is given up.
use global_news_intelligence.Prelude.{
  ℕ, ◌+◌, ◌-◌, ◌*◌, ◌^◌, ◌/◌, min, max, String, ◌==◌, Bool, true, false, not, ◌&&◌, Option, none,
  some, find?, Result, ok, ◌>>=◌, ◌>>◌, raise_if, or_raise, not_found, runtime_error,
  integrity_error, Time, ℤ, pos, negsuc, seconds, ltb, if◌then◌else◌,
}
use global_news_intelligence.Alerts.Tables.{
  DeliveryStatus, AttemptStatus, Delivery, Attempt, AlertDb, is_processing, has_id, runs,
  put_delivery, put_attempt, is_http_status, is_reversed, truncate,
}
use global_news_intelligence.Alerts.Claims.{
  DeliveryResult, PreparedDelivery, reached, claim_superseded,
}

-- The two readings of a `Retry-After` header: `int(text)`, none if it raises `ValueError`, and
-- `parsedate_to_datetime(text)` in UTC, none if that raises.
pub record HeaderReader : Type 0 where
  pub int : String → Option ℤ
  pub date : String → Option Time

-- `max(delay, value)`
unfoldable pub at_least : ℕ → ℤ → ℕ
at_least delay (pos n) = max delay n
at_least delay (negsuc n) = delay

-- A time in the past gives a number of seconds that is not positive, which `max` passes over.
unfoldable pub until_date : ℕ → Time → Option Time → ℕ
until_date delay now none = delay
until_date delay now (some t) = max delay ((t - now) / 1000000)

-- `int(retry_after)`, and the date where that raises
unfoldable pub at_int : ℕ → ℕ → Option ℤ → ℕ
unfolding at_least
at_int delay dated none = dated
at_int delay dated (some n) = at_least delay n

unfoldable pub asked_delay : HeaderReader → ℕ → Time → Option String → ℕ
unfolding at_int until_date
asked_delay h delay now none = delay
asked_delay h delay now (some text) = at_int delay (until_date delay now (h.date text)) (h.int text)

-- `_retry_delay`; `now` is its reading of the clock.
unfoldable pub retry_delay : HeaderReader → Delivery → Time → Option String → ℕ
unfolding asked_delay
retry_delay h d now retry_after =
    let exponential = d.retry_base_seconds * (2 ^ (d.cycle_attempt_count - 1)) in
    min (asked_delay h (min exponential d.retry_max_seconds) now retry_after) d.retry_max_seconds

-- What a request came to, as `_finalize_delivery` is told.
pub data Outcome : Type 0 where
  succeeded retryable_failure permanent_failure : Outcome

pub record Report : Type 0 where
  pub outcome : Outcome
  pub http_status : Option ℕ
  pub error : Option String
  pub response_excerpt : Option String
  pub retry_after : Option String

-- The statuses of the attempt and of the delivery that an outcome gives.
unfoldable pub attempt_status : Outcome → AttemptStatus
attempt_status succeeded = AttemptStatus.succeeded
attempt_status retryable_failure = AttemptStatus.retryable_failure
attempt_status permanent_failure = AttemptStatus.permanent_failure

abbrev pub is_retryable : Outcome → Bool
is_retryable retryable_failure = true
is_retryable _ = false

-- `MAX_ERROR_LENGTH` and `MAX_RESPONSE_EXCERPT`
abbrev pub max_text : ℕ
max_text = 2000

unfoldable pub finished_attempt : Report → Time → Attempt → Attempt
unfolding attempt_status
finished_attempt r now a = record a {
  status = attempt_status r.outcome;
  completed_at = some now;
  http_status = r.http_status;
  error = truncate r.error max_text;
  response_excerpt = truncate r.response_excerpt max_text;
}

-- The row without its claim, with the last answer.
abbrev pub answered : Report → Delivery → Delivery
answered r d = record d {
  last_http_status = r.http_status;
  last_error = truncate r.error max_text;
  claimed_at = none;
  claim_expires_at = none;
  claim_token = none;
}

-- The three branches on the outcome. `retry_now` is the clock that `_retry_delay` reads.
unfoldable pub finished_delivery : HeaderReader → Report → Time → Time → Delivery → Delivery
unfolding retry_delay
finished_delivery h r now retry_now d = elim r.outcome [
  | succeeded ↦ record (answered r d) {
    status = DeliveryStatus.delivered;
    delivered_at = some now;
    next_attempt_at = none;
  }
  | retryable_failure ↦
      if ltb d.cycle_attempt_count d.max_attempts
      then record (answered r d) {
        status = DeliveryStatus.retry_scheduled;
        next_attempt_at = some (now + seconds (retry_delay h d retry_now r.retry_after));
      }
      else record (answered r d) {
        status = DeliveryStatus.permanent_failure;
        next_attempt_at = none;
      }
  | permanent_failure ↦ record (answered r d) {
    status = DeliveryStatus.permanent_failure;
    next_attempt_at = none;
  }
]

abbrev pub is_token : Option ℕ → ℕ → Bool
is_token none token = false
is_token (some t) token = t == token

-- `delivery.status == "processing" and delivery.claim_token == token`
abbrev pub holds_claim : ℕ → Delivery → Bool
holds_claim token d = is_processing d.status && is_token d.claim_token token

-- The answer to a worker whose claim another one has taken.
abbrev pub superseded : Delivery → DeliveryResult
superseded d = record {
  delivery_id = d.id;
  status = claim_superseded;
  attempt_number = none;
  http_status = d.last_http_status;
  error = d.last_error;
}

-- From the look-up of the attempt to the end.
unfoldable pub finish :
    HeaderReader
    → PreparedDelivery
    → Report
    → Time
    → Time
    → Delivery
    → AlertDb
    → Result (AlertDb × DeliveryResult)
unfolding finished_attempt finished_delivery
finish h p r now retry_now d s = do
  a ← or_raise (find? (runs d.id p.claim_token) s.attempts) runtime_error
  raise_if (not (is_http_status r.http_status)) integrity_error
  raise_if (is_reversed (finished_attempt r now a)) integrity_error
  let d' = finished_delivery h r now retry_now d
  ok (
    put_attempt (finished_attempt r now a) (put_delivery d' s),
    record {
      delivery_id = d.id;
      status = reached d'.status;
      attempt_number = some a.attempt_number;
      http_status = r.http_status;
      error = truncate r.error max_text;
    },
  )

-- `_finalize_delivery`
unfoldable pub finalize :
    HeaderReader
    → PreparedDelivery
    → Report
    → Time
    → Time
    → AlertDb
    → Result (AlertDb × DeliveryResult)
unfolding finish
finalize h p r now retry_now s = do
  d ← or_raise (find? (has_id p.delivery_id) s.deliveries) not_found
  let rest = finish h p r now retry_now d s
  if holds_claim p.claim_token d then rest else ok (s, superseded d)
