-- ===== src/Alerts/Examples.antt =====
-- One match, one destination, and two workers after the delivery.
use global_news_intelligence.Prelude.{
  All, if◌then◌else◌, ℕ, ◌≡◌, ◌≤◌, refl, true, false, none, some, [], ◌∷◌, any, find?, ◌==◌, ◌&&◌,
  update, count, ok, after, arith,
}
use global_news_intelligence.Lease.{is_blank}
use global_news_intelligence.Alerts.Tables.{
  Priority, Destination, Route, Delivery, Alert, DeliveryStatus, AlertDb, has_id, is_processing,
  create_attempt, is_http_status, satisfies_checks, satisfies_snapshot, prefix, truncate,
}
use global_news_intelligence.Alerts.{
  close_stale, PreparedDelivery, DeliveryResult, HeaderReader, Report, World, responded, reported,
  already_processing, claim_superseded, reached, retryable_failure, prepare, claim, open_attempt,
  succeeded, open_bundle, start, new_attempt, claim_row, finalize, retry_delay, send, report_of,
  outcome_of, error_of, deliver,
}
use global_news_intelligence.Alerts.Creation.{
  links, create_alert_for_match, create_alert_once, new_alert, text_or, add_alert, active_routes,
  add_route, summarize, create_each, create_delivery_once, add_delivery, new_delivery,
}
use global_news_intelligence.Alerts.Sound.{IsSound}
use global_news_intelligence.Alerts.History.{creates, prepares, run, run-IsSound}
use global_news_intelligence.Alerts.Delays.{retry_delay-bounds}
use global_news_intelligence.Alerts.Claiming.{prepare_excludes, prepare_fences, deliver_records}
use global_news_intelligence.Alerts.Again.{create_again}
use global_news_intelligence.Alerts.Shown.{Shows}
use global_news_intelligence.Alerts.Routing.{
  RouteInput, binds, put_route, set_monitor_destination, set_monitor_destination-routes,
}
use global_news_intelligence.Alerts.Due.{due_deliveries, listed_opened}

abbrev phone : Destination
phone = record {
  id = 1;
  slug = "phone";
  name = "Phone";
  base_url = "https://ntfy.example";
  topic = "news";
  auth_token_env_var = none;
  is_active = true;
  request_timeout_seconds = 10;
  max_attempts = 2;
  retry_base_seconds = 30;
  retry_max_seconds = 3600;
}

abbrev matched : AlertDb
matched = record {
  monitors = record { id = 1; name = "Ports" } ∷ [];
  matches =
      record {
        id = 4;
        monitor_id = 1;
        document_id = 2;
        first_monitor_revision_id = 1;
        first_matched_at = 50;
      }
      ∷ [];
  documents =
      record {
        id = 2;
        title_original = "Strike";
        summary_original = none;
        content_original = some "";
        canonical_url = none;
      }
      ∷ [];
  destinations = phone ∷ [];
  routes =
      record {
        monitor_id = 1;
        destination_id = 1;
        is_enabled = true;
        priority = some Priority.high;
      }
      ∷ [];
  alerts = [];
  deliveries = [];
  attempts = [];
  next_alert_id = 1;
  next_delivery_id = 1;
  next_attempt_id = 1;
  db_now = 60;
}

matched-IsSound : IsSound matched
unfolding count
matched-IsSound = record {
  kept = record {
    checks = tt;
    budget = tt;
    delivery_ids = tt;
    owners = tt;
    attempt_ids = tt;
    attempt_keys = λ i. omega arith;
  };
  linked = tt;
}

abbrev alerted : AlertDb
alerted = after matched (create_alert_for_match 60 4 matched)

abbrev alert : Alert
alert = record {
  id = 1;
  monitor_id = 1;
  monitor_match_id = 4;
  monitor_revision_id = 1;
  document_id = 2;
  priority = Priority.normal;
  title = "Ports: Strike";
  message = "New document matched Monitor Ports";
  created_at = 50;
}

abbrev delivery : Delivery
delivery = record {
  id = 1;
  alert_id = 1;
  destination_id = 1;
  priority = Priority.high;
  base_url = "https://ntfy.example";
  topic = "news";
  auth_token_env_var = none;
  request_timeout_seconds = 10;
  max_attempts = 2;
  retry_base_seconds = 30;
  retry_max_seconds = 3600;
  status = DeliveryStatus.pending;
  attempt_count = 0;
  cycle_attempt_count = 0;
  next_attempt_at = some 60;
  claimed_at = none;
  claim_expires_at = none;
  claim_token = none;
  last_attempt_at = none;
  delivered_at = none;
  last_http_status = none;
  last_error = none;
}

create_again_example :
    create_alert_for_match 99 4 alerted
    ≡ ok (alerted, record { alert = alert; deliveries = delivery ∷ []; created = false })
unfolding create_alert_for_match create_alert_once new_alert text_or add_alert active_routes
    add_route summarize create_each create_delivery_once add_delivery new_delivery find? is_blank
    satisfies_snapshot prefix
create_again_example =
    create_again 60 99 4 matched alerted
      (record { alert = alert; deliveries = delivery ∷ []; created = true }) refl

run-IsSound_example : IsSound (run matched (creates 60 4 ∷ prepares 1 70 11 ∷ []))
run-IsSound_example = run-IsSound matched (creates 60 4 ∷ prepares 1 70 11 ∷ []) matched-IsSound

abbrev no_header : HeaderReader
no_header = record { int = λ _. none; date = λ _. none }

retry_delay-bounds_example :
    (30 ≤ retry_delay no_header delivery 100 none)
    × (retry_delay no_header delivery 100 none ≤ 3600)
    × (30 ≤ retry_delay no_header delivery 100 none)
retry_delay-bounds_example = retry_delay-bounds no_header delivery 100 none (omega arith)

abbrev work : ℕ → PreparedDelivery
work token = record {
  delivery_id = 1;
  attempt_id = 1;
  claim_token = token;
  alert_id = 1;
  destination_id = 1;
  base_url = "https://ntfy.example";
  topic = "news";
  auth_token_env_var = none;
  timeout_seconds = 10;
  priority = Priority.high;
  title = "Ports: Strike";
  message = "New document matched Monitor Ports";
  click_url = none;
}

abbrev due : AlertDb
due = record matched {
  alerts = alert ∷ [];
  deliveries = delivery ∷ [];
  next_alert_id = 2;
  next_delivery_id = 2;
}

abbrev working : AlertDb
working = after due (prepare 1 70 11 due)

prepare_excludes_example :
    (x : DeliveryResult) × (prepare 1 80 12 working ≡ ok (working, reported x))
    × (x.delivery_id ≡ 1)
    × (x.status ≡ already_processing)
unfolding prepare claim open_attempt open_bundle start new_attempt claim_row create_attempt find?
    any update
prepare_excludes_example =
    prepare_excludes 1 70 80 11 12 due working working (work 11) refl refl (omega arith)

abbrev failed : Report
failed = record {
  outcome = retryable_failure;
  http_status = some 503;
  error = none;
  response_excerpt = none;
  retry_after = none;
}

prepare_fences_example :
    (x : DeliveryResult) × (finalize no_header (work 9) failed 90 90 working ≡ ok (working, x))
    × (x.status ≡ claim_superseded)
unfolding prepare claim open_attempt open_bundle start new_attempt claim_row create_attempt find?
    any update
prepare_fences_example =
    prepare_fences 1 70 90 90 11 due working (work 11) (work 9) no_header failed refl refl (λ e. cc)

abbrev world : World
world = record {
  environment = λ _. none;
  show = λ _. "200";
  post = λ _. ok (responded 200 "" none);
  headers = no_header;
}

due-IsSound : IsSound due
unfolding count satisfies_checks is_http_status satisfies_snapshot
due-IsSound = record {
  kept = record {
    checks = (refl, tt);
    budget = (omega arith, tt);
    delivery_ids = (omega arith, tt);
    owners = tt;
    attempt_ids = tt;
    attempt_keys = λ i. omega arith;
  };
  linked = ((refl, refl, refl), tt);
}

abbrev answered_report : Report
answered_report = record {
  outcome = succeeded;
  http_status = some 200;
  error = none;
  response_excerpt = some "";
  retry_after = none;
}

deliver_records_example :
    (t : AlertDb) × (x : DeliveryResult) × (row d : Delivery) × (deliver world
        (λ u. u)
        1
        11
        70
        90
        90
        due
      ≡ (t, ok x))
    × (find? (has_id 1) working.deliveries ≡ some row)
    × (find? (has_id 1) t.deliveries ≡ some d)
    × (x.status ≡ reached d.status)
    × Shows answered_report 90 row d
unfolding prepare claim open_attempt open_bundle start new_attempt claim_row create_attempt find?
    any update send report_of outcome_of error_of is_http_status truncate prefix
deliver_records_example =
    deliver_records world 1 11 70 90 90 due working (work 11) answered_report due-IsSound refl refl
      refl (omega arith, tt)

abbrev muted : RouteInput
muted = record { destination_id = 1; is_enabled = false; priority = none }

abbrev muted_route : Route
muted_route = record { monitor_id = 1; destination_id = 1; is_enabled = false; priority = none }

set_monitor_destination-routes_example :
    (find? (binds 1 1) (muted_route ∷ []) ≡ some muted_route)
    × (false ≡ false)
    × (muted_route.priority ≡ none)
    × (find? (links 1 1) (muted_route ∷ []) ≡ (if false then some muted_route else none))
    × ((m d : ℕ)
        → (m == 1 && d == 1) ≡ false
        → find? (binds m d) (muted_route ∷ []) ≡ find? (binds m d) matched.routes)
unfolding set_monitor_destination put_route find? update
set_monitor_destination-routes_example =
    set_monitor_destination-routes 1 muted matched (record matched { routes = muted_route ∷ [] })
      muted_route refl

listed_opened_example :
    All
      (λ (d : Delivery).
        claim 90 12 d due
        ≡ open_attempt 90 12 d
            (if is_processing d.status then close_stale 90 d.id d.claim_token due else due))
      (due_deliveries 80 500 due)
listed_opened_example = listed_opened 80 90 500 12 due (omega arith)
