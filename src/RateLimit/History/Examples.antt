-- ===== src/RateLimit/History/Examples.antt =====
-- One endpoint with one bucket under a policy of two requests a minute.
use global_news_intelligence.Prelude.{
  ◌≡◌, ◌↔◌, refl, String, true, none, some, [], ◌∷◌, any, find?, filter, update, count, ok, after,
  pos, arith, all, ◌<◌,
}
use global_news_intelligence.Lease.{is_blank}
use global_news_intelligence.RateLimit.Tables.{
  Scope, Policy, Binding, Bucket, Reservation, ReservationStatus, RateDb,
}
use global_news_intelligence.RateLimit.Windows.{
  refresh_windows, next_eligible, candidates, maximum, hold, over_budget, spacing, count_request,
}
use global_news_intelligence.RateLimit.Windows.Bounds.{
  HasRoom, IsWithin, next_eligible-none, count_request-IsWithin, next_eligible_ahead,
}
use global_news_intelligence.RateLimit.Targets.{SplitUrl, Registry}
use global_news_intelligence.RateLimit.Balance.{IsBalanced}
use global_news_intelligence.RateLimit.Admission.{Answers, authorize-Answers}
use global_news_intelligence.RateLimit.History.{Call, run, run-IsBalanced, finalize_again}
use global_news_intelligence.RateLimit.{
  ReserveRequest, reserved, finalize, parse_outcome, close_reservation, authorize, settle, decide,
  grant, charge, charge_row, with_reservation, new_reservation, is_complete, rows_of, joined,
  join_binding, join_policy, expire_abandoned, expire_each, is_abandoned, refresh_rows,
  controlling_from, later, eligible_at,
}

abbrev two_a_minute : Policy
two_a_minute = record {
  id = 1;
  slug = "phase3-installation-default";
  version = "1";
  requests_per_period = 2;
  period_seconds = 60;
  burst_size = 1;
  max_concurrency = 1;
  minimum_request_spacing_seconds = 0;
  daily_request_budget = some 100;
  valid_to = none;
}

abbrev idle : Bucket
idle = record {
  id = 1;
  binding_id = 1;
  scope = Scope.installation;
  window_started_at = 0;
  request_count = 0;
  daily_window_started_at = 0;
  daily_request_count = 0;
  active_concurrency = 0;
  last_request_at = none;
  blocked_until = none;
  provider_reset_at = none;
  next_eligible_at = none;
}

abbrev crowded : Bucket
crowded = record idle { request_count = 2 }

abbrev installation_wide : Binding
installation_wide = record { id = 1; policy_id = 1; scope = Scope.installation; valid_to = none }

abbrev fresh : RateDb
fresh = record {
  policies = two_a_minute ∷ [];
  bindings = installation_wide ∷ [];
  buckets = idle ∷ [];
  reservations = [];
  memberships = [];
  observations = [];
  next_binding_id = 2;
  next_bucket_id = 2;
  next_reservation_id = 1;
}

abbrev registry : Registry
registry = record {
  endpoints = [];
  configurations = [];
  runs = record { id = 5; source_endpoint_id = 7 } ∷ [];
}

abbrev request : ReserveRequest
request = record {
  ingestion_run_id = 5;
  source_endpoint_id = 7;
  request_identity = "fetch";
  secret_reference_ids = [];
  reservation_ttl = pos 300;
  now = 1000;
  db_now = 1000;
}

abbrev split : String → SplitUrl
split _ = record { scheme = "https"; hostname = some "news.example"; port = none }

next_eligible-none_example :
    (next_eligible idle two_a_minute 1000 ≡ none) ↔ HasRoom idle two_a_minute 1000
next_eligible-none_example = next_eligible-none idle two_a_minute 1000

count_request-IsWithin_example : IsWithin (count_request 1000 idle) two_a_minute
unfolding next_eligible candidates maximum hold over_budget spacing
count_request-IsWithin_example = count_request-IsWithin idle two_a_minute 1000 refl

next_eligible_ahead_example : 1000 < 60000000
unfolding next_eligible candidates maximum hold over_budget spacing refresh_windows
next_eligible_ahead_example =
    next_eligible_ahead crowded two_a_minute 1000 60000000 (omega arith) refl

abbrev admitted : Reservation
admitted = record {
  id = 1;
  ingestion_run_id = 5;
  request_identity = "fetch";
  status = ReservationStatus.active;
  reserved_at = 1000;
  expires_at = 1300;
  finalized_at = none;
  next_eligible_at = none;
}

abbrev busy : RateDb
busy = after fresh (authorize registry request (Scope.installation ∷ []) fresh)

authorize-Answers_example :
    Answers 1000
      (rows_of
        (Scope.installation ∷ [])
        (expire_abandoned 1000 (rows_of (Scope.installation ∷ []) fresh) fresh))
      (expire_abandoned 1000 (rows_of (Scope.installation ∷ []) fresh) fresh)
      busy
      (record {
        permitted = true;
        state = reserved;
        reservation = some admitted;
        controlling_scope = none;
        next_eligible_at = none;
      })
unfolding authorize settle decide grant charge charge_row with_reservation new_reservation
    is_complete rows_of joined join_binding join_policy expire_abandoned expire_each is_abandoned
    refresh_rows controlling_from later eligible_at refresh_windows next_eligible candidates maximum
    hold over_budget spacing count_request find? any all filter update is_blank
authorize-Answers_example =
    authorize-Answers registry request (Scope.installation ∷ []) fresh busy
      (record {
        permitted = true;
        state = reserved;
        reservation = some admitted;
        controlling_scope = none;
        next_eligible_at = none;
      })
      refl

fresh-IsBalanced : IsBalanced fresh
unfolding count
fresh-IsBalanced = record {
  balanced = (refl, tt);
  bucket_ids = (omega arith, tt);
  membership_ids = tt;
  single = λ r b. omega arith;
}

run-IsBalanced_example :
    IsBalanced
      (run split fresh (Call.reserves registry request ∷ Call.finalizes 1 "completed" 1100 ∷ []))
run-IsBalanced_example =
    run-IsBalanced split fresh
      (Call.reserves registry request ∷ Call.finalizes 1 "completed" 1100 ∷ []) fresh-IsBalanced

abbrev done : RateDb
done = after busy (finalize 1 "completed" 1100 busy)

finalize_again_example :
    finalize 1 "failed" 1200 done
    ≡ ok (done, record admitted { status = ReservationStatus.completed; finalized_at = some 1100 })
unfolding authorize settle decide grant charge charge_row with_reservation new_reservation
    is_complete rows_of joined join_binding join_policy expire_abandoned expire_each is_abandoned
    refresh_rows controlling_from later eligible_at refresh_windows next_eligible candidates maximum
    hold over_budget spacing count_request find? any all filter update is_blank finalize
    parse_outcome close_reservation
finalize_again_example =
    finalize_again 1 "completed" "failed" 1100 1200 busy done
      (record admitted { status = ReservationStatus.completed; finalized_at = some 1100 }) refl
      (λ e. cc)
