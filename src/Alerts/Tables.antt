-- ===== src/Alerts/Tables.antt =====
-- The alert tables of app/models/alert.py and the columns of the monitor and document tables that
-- app/services/alert_service.py reads. The columns that are only displayed are left out. `db_now` is
-- what `now()` gives in the transaction, which fills `started_at` of an attempt.
use global_news_intelligence.Alerts.Formats.{is_topic, is_variable, starts_with}
use global_news_intelligence.Prelude.{
  ℕ, zero, suc, ◌+◌, String, ◌==◌, Bool, true, false, ◌&&◌, ◌||◌, not, Option, none, some, List, [],
  ◌∷◌, ◌++◌, any, update, Result, ok, ◌>>◌, raise_if, integrity_error, Time, is_some, leb, ltb,
}

pub data Priority : Type 0 where
  low normal high critical : Priority

-- `NTFY_PRIORITY`
unfoldable pub ntfy_priority : Priority → ℕ
ntfy_priority low = 2
ntfy_priority normal = 3
ntfy_priority high = 4
ntfy_priority critical = 5

pub data DeliveryStatus : Type 0 where
  pending processing retry_scheduled delivered permanent_failure cancelled : DeliveryStatus

pub data AttemptStatus : Type 0 where
  running succeeded retryable_failure permanent_failure : AttemptStatus

pub record Destination : Type 0 where
  pub id : ℕ
  pub slug : String
  pub name : String
  pub base_url : String
  pub topic : String
  pub auth_token_env_var : Option String
  pub is_active : Bool
  pub request_timeout_seconds : ℕ
  pub max_attempts : ℕ
  pub retry_base_seconds : ℕ
  pub retry_max_seconds : ℕ

-- `MonitorAlertDestination`
pub record Route : Type 0 where
  pub monitor_id : ℕ
  pub destination_id : ℕ
  pub is_enabled : Bool
  pub priority : Option Priority

pub record Alert : Type 0 where
  pub id : ℕ
  pub monitor_id : ℕ
  pub monitor_match_id : ℕ
  pub monitor_revision_id : ℕ
  pub document_id : ℕ
  pub priority : Priority
  pub title : String
  pub message : String
  pub created_at : Time

pub record Delivery : Type 0 where
  pub id : ℕ
  pub alert_id : ℕ
  pub destination_id : ℕ
  pub priority : Priority
  pub base_url : String
  pub topic : String
  pub auth_token_env_var : Option String
  pub request_timeout_seconds : ℕ
  pub max_attempts : ℕ
  pub retry_base_seconds : ℕ
  pub retry_max_seconds : ℕ
  pub status : DeliveryStatus
  pub attempt_count : ℕ
  pub cycle_attempt_count : ℕ
  pub next_attempt_at : Option Time
  pub claimed_at : Option Time
  pub claim_expires_at : Option Time
  pub claim_token : Option ℕ
  pub last_attempt_at : Option Time
  pub delivered_at : Option Time
  pub last_http_status : Option ℕ
  pub last_error : Option String

-- `AlertDeliveryAttempt`
pub record Attempt : Type 0 where
  pub id : ℕ
  pub delivery_id : ℕ
  pub attempt_number : ℕ
  pub claim_token : ℕ
  pub status : AttemptStatus
  pub request_url : String
  pub started_at : Time
  pub completed_at : Option Time
  pub http_status : Option ℕ
  pub response_excerpt : Option String
  pub error : Option String

pub record Document : Type 0 where
  pub id : ℕ
  pub title_original : String
  pub summary_original : Option String
  pub content_original : Option String
  pub canonical_url : Option String

pub record Monitor : Type 0 where
  pub id : ℕ
  pub name : String

-- `MonitorMatch`
pub record Match : Type 0 where
  pub id : ℕ
  pub monitor_id : ℕ
  pub document_id : ℕ
  pub first_monitor_revision_id : ℕ
  pub first_matched_at : Time

pub record AlertDb : Type 0 where
  pub monitors : List Monitor
  pub matches : List Match
  pub documents : List Document
  pub destinations : List Destination
  pub routes : List Route
  pub alerts : List Alert
  pub deliveries : List Delivery
  pub attempts : List Attempt
  pub next_alert_id : ℕ
  pub next_delivery_id : ℕ
  pub next_attempt_id : ℕ
  pub db_now : Time

abbrev pub is_processing : DeliveryStatus → Bool
is_processing DeliveryStatus.processing = true
is_processing _ = false

-- `status in {"pending", "retry_scheduled"}`
abbrev pub is_waiting : DeliveryStatus → Bool
is_waiting DeliveryStatus.pending = true
is_waiting DeliveryStatus.retry_scheduled = true
is_waiting _ = false

-- `status in {"delivered", "permanent_failure", "cancelled"}`
abbrev pub is_final : DeliveryStatus → Bool
is_final DeliveryStatus.delivered = true
is_final DeliveryStatus.permanent_failure = true
is_final DeliveryStatus.cancelled = true
is_final _ = false

abbrev pub is_delivered : DeliveryStatus → Bool
is_delivered DeliveryStatus.delivered = true
is_delivered _ = false

abbrev pub is_running : AttemptStatus → Bool
is_running AttemptStatus.running = true
is_running _ = false

abbrev pub has_id : ℕ → Delivery → Bool
has_id id d = d.id == id

-- `get_running_attempt`
abbrev pub runs : ℕ → ℕ → Attempt → Bool
runs delivery token a = (a.delivery_id == delivery && a.claim_token == token) && is_running a.status

-- The row is written back.
abbrev pub put_delivery : Delivery → AlertDb → AlertDb
put_delivery d s = record s { deliveries = update (has_id d.id) (λ _. d) s.deliveries }

abbrev pub put_attempt : Attempt → AlertDb → AlertDb
put_attempt a s = record s { attempts = update (λ x. x.id == a.id) (λ _. a) s.attempts }

-- The columns' default is null; a status is a three-digit number below 600.
unfoldable pub is_http_status : Option ℕ → Bool
is_http_status none = true
is_http_status (some n) = leb 100 n && leb n 599

-- Against the check `completed_after_started` of an attempt
abbrev pub is_reversed : Attempt → Bool
is_reversed a = elim a.completed_at [ none ↦ false | some t ↦ ltb t a.started_at ]

-- Equal keys of the unique constraints on an attempt's claim and on its number.
abbrev pub collides : Attempt → Attempt → Bool
collides a b =
    a.delivery_id == b.delivery_id
    && (a.claim_token == b.claim_token || a.attempt_number == b.attempt_number)

-- `create_attempt`
unfoldable pub create_attempt : Attempt → AlertDb → Result AlertDb
create_attempt a s = do
  raise_if (any (collides a) s.attempts) integrity_error
  ok (record s { attempts = s.attempts ++ a ∷ []; next_attempt_id = s.next_attempt_id + 1 })

-- `value[:limit]`
unfoldable pub prefix : ℕ → String → String
prefix zero text = ""
prefix (suc n) String.[] = ""
prefix (suc n) (String.◌∷◌ c text) = String.◌∷◌ c (prefix n text)

-- `_truncate`
unfoldable pub truncate : Option String → ℕ → Option String
unfolding prefix
truncate none limit = none
truncate (some text) limit = some (prefix limit text)

-- A value exactly when a test holds.
abbrev pub matches_null {ℓ} : {A : Type ℓ} → Bool → Option A → Bool
matches_null b none = not b
matches_null b (some _) = b

-- The constraints `base_url`, `topic`, `auth_env`, `timeout`, `max_attempts`, `retry_base` and
-- `retry_max`, which destinations and deliveries share.
unfoldable pub satisfies_snapshot : String → String → Option String → ℕ → ℕ → ℕ → ℕ → Bool
unfolding is_topic is_variable starts_with
satisfies_snapshot base_url topic variable timeout attempts base maximum =
    (starts_with "http://" base_url || starts_with "https://" base_url)
    && is_topic topic
    && is_variable variable
    && (leb 1 timeout && leb timeout 60)
    && (leb 1 attempts && leb attempts 20)
    && (leb 1 base && leb base 86400)
    && (leb base maximum && leb maximum 604800)

-- The checks on the row of a delivery. Those on the priority, on the status and on
-- `attempt_count` hold of every value of the columns' types.
unfoldable pub satisfies_checks : Delivery → Bool
unfolding is_http_status
satisfies_checks d =
    satisfies_snapshot d.base_url d.topic d.auth_token_env_var d.request_timeout_seconds
      d.max_attempts d.retry_base_seconds d.retry_max_seconds
    && matches_null (is_processing d.status) d.claim_token
    && matches_null (is_processing d.status) d.claimed_at
    && matches_null (is_processing d.status) d.claim_expires_at
    && matches_null (is_waiting d.status) d.next_attempt_at
    && (not (is_delivered d.status) || is_some d.delivered_at)
    && leb d.cycle_attempt_count d.attempt_count
    && is_http_status d.last_http_status
