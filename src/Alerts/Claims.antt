-- ===== src/Alerts/Claims.antt =====
-- `_prepare_delivery` of app/services/alert_service.py: a worker claims a delivery that is due.
use global_news_intelligence.Prelude.{
  ℕ, ◌+◌, max, String, ◌==◌, Bool, true, false, not, ◌&&◌, Option, none, some, find?, Result, ok,
  ◌>>=◌, ◌>>◌, raise_if, integrity_error, any, or_raise, not_found, runtime_error, Time, seconds,
  ltb, leb, if◌then◌else◌,
}
use global_news_intelligence.Alerts.Tables.{
  Priority, DeliveryStatus, AttemptStatus, Destination, Alert, Delivery, Attempt, Document, AlertDb,
  is_processing, is_waiting, is_final, has_id, runs, put_delivery, put_attempt, create_attempt,
  is_reversed,
}

-- The `status` of a `DeliveryResult`.
pub data ResultStatus : Type 0 where
  reached : DeliveryStatus → ResultStatus
  not_due already_processing claim_superseded : ResultStatus

pub record DeliveryResult : Type 0 where
  pub delivery_id : ℕ
  pub status : ResultStatus
  pub attempt_number : Option ℕ
  pub http_status : Option ℕ
  pub error : Option String

pub record PreparedDelivery : Type 0 where
  pub delivery_id : ℕ
  pub attempt_id : ℕ
  pub claim_token : ℕ
  pub alert_id : ℕ
  pub destination_id : ℕ
  pub base_url : String
  pub topic : String
  pub auth_token_env_var : Option String
  pub timeout_seconds : ℕ
  pub priority : Priority
  pub title : String
  pub message : String
  pub click_url : Option String

pub data Preparation : Type 0 where
  prepared : PreparedDelivery → Preparation
  reported : DeliveryResult → Preparation

-- `value is not None and value > now`
abbrev pub is_ahead : Option Time → Time → Bool
is_ahead none now = false
is_ahead (some t) now = ltb now t

-- `value is None or value > now`
abbrev pub is_held : Option Time → Time → Bool
is_held none now = true
is_held (some t) now = ltb now t

-- The row without a claim or a next attempt.
abbrev pub drop_claim : DeliveryStatus → Option String → Delivery → Delivery
drop_claim status error d = record d {
  status = status;
  next_attempt_at = none;
  claimed_at = none;
  claim_expires_at = none;
  claim_token = none;
  last_error = error;
}

-- `CLAIM_LEASE_SECONDS`
abbrev pub claim_lease_seconds : ℕ
claim_lease_seconds = 120

-- The row under a new claim.
unfoldable pub claim_row : Time → ℕ → Delivery → Delivery
claim_row now token d = record d {
  status = DeliveryStatus.processing;
  attempt_count = d.attempt_count + 1;
  cycle_attempt_count = d.cycle_attempt_count + 1;
  next_attempt_at = none;
  claimed_at = some now;
  claim_expires_at =
      some (now + seconds (max claim_lease_seconds (d.request_timeout_seconds + 30)));
  claim_token = some token;
  last_attempt_at = some now;
}

unfoldable pub new_attempt : ℕ → ℕ → Time → Delivery → Attempt
new_attempt id token db_now d = record {
  id = id;
  delivery_id = d.id;
  attempt_number = d.attempt_count + 1;
  claim_token = token;
  status = AttemptStatus.running;
  request_url = d.base_url;
  started_at = db_now;
  completed_at = none;
  http_status = none;
  response_excerpt = none;
  error = none;
}

-- From `claim_token = uuid4()` to the end.
unfoldable pub start :
    Time → ℕ → Delivery → Alert → Document → AlertDb → Result (AlertDb × Preparation)
unfolding claim_row new_attempt
start now token d alert document s = do
  s' ←
      create_attempt (new_attempt s.next_attempt_id token s.db_now d)
        (put_delivery (claim_row now token d) s)
  ok (
    s',
    prepared (record {
      delivery_id = d.id;
      attempt_id = s.next_attempt_id;
      claim_token = token;
      alert_id = alert.id;
      destination_id = d.destination_id;
      base_url = d.base_url;
      topic = d.topic;
      auth_token_env_var = d.auth_token_env_var;
      timeout_seconds = d.request_timeout_seconds;
      priority = d.priority;
      title = alert.title;
      message = alert.message;
      click_url = document.canonical_url;
    }),
  )

abbrev pub report : Delivery → ResultStatus → Option ℕ → Option String → Preparation
report d status http error = reported (record {
  delivery_id = d.id;
  status = status;
  attempt_number = none;
  http_status = http;
  error = error;
})

abbrev pub inactive_error : Option String
inactive_error = some "Alert destination is inactive."

abbrev pub exhausted_error : Option String
exhausted_error = some "Alert delivery retry budget is exhausted."

-- From `if not destination.is_active` to the end.
unfoldable pub open_bundle :
    Time → ℕ → Delivery → Alert → Destination → Document → AlertDb → Result (AlertDb × Preparation)
unfolding start
open_bundle now token d alert destination document s =
    if not destination.is_active
    then ok (
      put_delivery (drop_claim DeliveryStatus.cancelled inactive_error d) s,
      report d (reached DeliveryStatus.cancelled) none inactive_error,
    )
    else if leb d.max_attempts d.cycle_attempt_count
    then ok (
      put_delivery (drop_claim DeliveryStatus.permanent_failure exhausted_error d) s,
      report d (reached DeliveryStatus.permanent_failure) d.last_http_status exhausted_error,
    )
    else start now token d alert document s

-- `get_delivery_bundle` and what follows. Its first query flushes an attempt that `close_stale` has
-- changed, under the check on its times, which the other rows satisfy already.
unfoldable pub open_attempt : Time → ℕ → Delivery → AlertDb → Result (AlertDb × Preparation)
unfolding open_bundle
open_attempt now token d s = do
  raise_if (any is_reversed s.attempts) integrity_error
  alert ← or_raise (find? (λ (a : Alert). a.id == d.alert_id) s.alerts) runtime_error
  destination ←
      or_raise (find? (λ (x : Destination). x.id == d.destination_id) s.destinations) runtime_error
  document ←
      or_raise (find? (λ (x : Document). x.id == alert.document_id) s.documents) runtime_error
  open_bundle now token d alert destination document s

-- An attempt whose claim ran out.
abbrev pub abandon : Time → Attempt → Attempt
abandon now a = record a {
  status = AttemptStatus.retryable_failure;
  completed_at = some now;
  error = some "Delivery claim expired before completion.";
}

unfoldable pub abandon_found : Time → Option Attempt → AlertDb → AlertDb
abandon_found now none s = s
abandon_found now (some a) s = put_attempt (abandon now a) s

-- `if delivery.claim_token is not None: ...`
unfoldable pub close_stale : Time → ℕ → Option ℕ → AlertDb → AlertDb
unfolding abandon_found
close_stale now id none s = s
close_stale now id (some token) s = abandon_found now (find? (runs id token) s.attempts) s

-- `_prepare_delivery`, once the row is found
unfoldable pub claim : Time → ℕ → Delivery → AlertDb → Result (AlertDb × Preparation)
unfolding open_attempt close_stale
claim now token d s =
    if is_final d.status
    then ok (s, report d (reached d.status) d.last_http_status d.last_error)
    else if is_waiting d.status && is_ahead d.next_attempt_at now
    then ok (s, report d not_due none none)
    else if is_processing d.status && is_held d.claim_expires_at now
    then ok (s, report d already_processing none none)
    else open_attempt now token d
        (if is_processing d.status then close_stale now d.id d.claim_token s else s)

-- `_prepare_delivery`; `token` is what `uuid4()` draws.
unfoldable pub prepare : ℕ → Time → ℕ → AlertDb → Result (AlertDb × Preparation)
unfolding claim
prepare id now token s = do
  d ← or_raise (find? (has_id id) s.deliveries) not_found
  claim now token d s
