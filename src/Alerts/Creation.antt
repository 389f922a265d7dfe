-- ===== src/Alerts/Creation.antt =====
-- `create_alert_for_match` of app/services/alert_service.py with `create_alert_once`,
-- `list_active_routes` and `create_delivery_once` of app/repositories/alert_repository.py. It runs in
-- the transaction that stores the match. The metadata of an alert is left out, and with it the source.
use Prim.Native.String.{◌++◌ as append}
use global_news_intelligence.Prelude.{
  ℕ, ◌+◌, String, str_eq, ◌==◌, Bool, true, false, not, ◌&&◌, ◌||◌, Option, none, some, List, [],
  ◌∷◌, ◌++◌, find?, Result, ok, ◌>>=◌, ◌>>◌, raise_if, or_raise, not_found, integrity_error, Time,
  if◌then◌else◌, or_else,
}
use global_news_intelligence.Lease.{is_blank}
use global_news_intelligence.Alerts.Tables.{
  Priority, DeliveryStatus, Destination, Route, Alert, Delivery, Document, Monitor, Match, AlertDb,
  prefix, satisfies_checks,
}

-- `document.summary_original or document.content_original or ...`
unfoldable pub text_or : Option String → String → String
text_or none default = default
text_or (some text) default = if str_eq text "" then default else text

unfoldable pub new_alert : Match → Monitor → Document → ℕ → Alert
unfolding text_or
new_alert m monitor document id = record {
  id = id;
  monitor_id = m.monitor_id;
  monitor_match_id = m.id;
  monitor_revision_id = m.first_monitor_revision_id;
  document_id = m.document_id;
  priority = Priority.normal;
  title = prefix 512 (append monitor.name (append ": " document.title_original));
  message = prefix 4000 (
      text_or document.summary_original
        (text_or document.content_original (append "New document matched Monitor " monitor.name)));
  created_at = m.first_matched_at;
}

abbrev pub of_match : ℕ → Alert → Bool
of_match id a = a.monitor_match_id == id

-- `ON CONFLICT DO NOTHING` on the match; the flag tells whether the alert is new.
unfoldable pub add_alert : Alert → Option Alert → AlertDb → AlertDb × (Alert × Bool)
add_alert a (some b) s = (s, (b, false))
add_alert a none s =
    (record s { alerts = s.alerts ++ a ∷ []; next_alert_id = s.next_alert_id + 1 }, (a, true))

-- `create_alert_once`, under the checks on the title and the message
unfoldable pub create_alert_once : Alert → AlertDb → Result (AlertDb × (Alert × Bool))
unfolding add_alert
create_alert_once a s = do
  raise_if (is_blank a.title || is_blank a.message) integrity_error
  ok (add_alert a (find? (of_match a.monitor_match_id) s.alerts) s)

abbrev pub links : ℕ → ℕ → Route → Bool
links monitor destination r =
    (r.monitor_id == monitor && r.destination_id == destination) && r.is_enabled

unfoldable pub add_route :
    Option Route → Destination → List (Route × Destination) → List (Route × Destination)
add_route none d rest = rest
add_route (some r) d rest = (r, d) ∷ rest

-- `list_active_routes`
unfoldable pub active_routes : ℕ → List Route → List Destination → List (Route × Destination)
unfolding add_route
active_routes monitor routes [] = []
active_routes monitor routes (d ∷ ds) =
    let rest = active_routes monitor routes ds in
    if d.is_active then add_route (find? (links monitor d.id) routes) d rest else rest

abbrev pub delivers : ℕ → ℕ → Delivery → Bool
delivers alert destination d = d.alert_id == alert && d.destination_id == destination

-- The defaults of the columns are pending, due at once and without attempts.
unfoldable pub new_delivery : Time → ℕ → Alert → Route → Destination → Delivery
new_delivery db_now id alert r x = record {
  id = id;
  alert_id = alert.id;
  destination_id = x.id;
  priority = or_else r.priority alert.priority;
  base_url = x.base_url;
  topic = x.topic;
  auth_token_env_var = x.auth_token_env_var;
  request_timeout_seconds = x.request_timeout_seconds;
  max_attempts = x.max_attempts;
  retry_base_seconds = x.retry_base_seconds;
  retry_max_seconds = x.retry_max_seconds;
  status = DeliveryStatus.pending;
  attempt_count = 0;
  cycle_attempt_count = 0;
  next_attempt_at = some db_now;
  claimed_at = none;
  claim_expires_at = none;
  claim_token = none;
  last_attempt_at = none;
  delivered_at = none;
  last_http_status = none;
  last_error = none;
}

unfoldable pub add_delivery : Delivery → Option Delivery → AlertDb → AlertDb × Delivery
add_delivery d (some e) s = (s, e)
add_delivery d none s =
    (record s { deliveries = s.deliveries ++ d ∷ []; next_delivery_id = s.next_delivery_id + 1 }, d)

-- `create_delivery_once`; the checks are tested before the conflict on the alert and the destination.
unfoldable pub create_delivery_once :
    Time → Alert → Route → Destination → AlertDb → Result (AlertDb × Delivery)
unfolding new_delivery add_delivery satisfies_checks
create_delivery_once db_now alert r x s = do
  let d = new_delivery db_now s.next_delivery_id alert r x
  raise_if (not (satisfies_checks d)) integrity_error
  ok (add_delivery d (find? (delivers alert.id x.id) s.deliveries) s)

unfoldable pub create_each :
    Time → Alert → List (Route × Destination) → AlertDb → Result (AlertDb × List Delivery)
unfolding create_delivery_once
create_each db_now alert [] s = ok (s, [])
create_each db_now alert ((r, x) ∷ rest) s = do
  (s', d) ← create_delivery_once db_now alert r x s
  (t, ds) ← create_each db_now alert rest s'
  ok (t, d ∷ ds)

-- `AlertCreationSummary`
pub record Summary : Type 0 where
  pub alert : Alert
  pub deliveries : List Delivery
  pub created : Bool

unfoldable pub summarize : Time → ℕ → AlertDb × (Alert × Bool) → Result (AlertDb × Summary)
unfolding create_each
summarize db_now monitor (s, (alert, created)) = do
  (t, ds) ← create_each db_now alert (active_routes monitor s.routes s.destinations) s
  ok (t, record { alert = alert; deliveries = ds; created = created })

unfoldable pub create_alert_for_match : Time → ℕ → AlertDb → Result (AlertDb × Summary)
unfolding new_alert create_alert_once active_routes summarize
create_alert_for_match db_now id s = do
  m ← or_raise (find? (λ (x : Match). x.id == id) s.matches) not_found
  monitor ← or_raise (find? (λ (x : Monitor). x.id == m.monitor_id) s.monitors) not_found
  document ← or_raise (find? (λ (x : Document). x.id == m.document_id) s.documents) not_found
  a ← create_alert_once (new_alert m monitor document s.next_alert_id) s
  summarize db_now m.monitor_id a
