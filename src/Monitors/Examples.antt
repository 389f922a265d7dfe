-- ===== src/Monitors/Examples.antt =====
-- A monitor with its first revision and one document, in states that the transactions reach.
use global_news_intelligence.Prelude.{
  ℕ, min, ◌+◌, ◌≡◌, refl, true, false, none, some, List, [], ◌∷◌, all, any, length, count, find?,
  update, ok, arith, Bool, All, ◌==◌,
}
use global_news_intelligence.Lease.{is_blank}
use global_news_intelligence.Alerts.Tables.{AlertDb}
use global_news_intelligence.Monitors.Tables.{
  MonitorStatus, Trigger, Monitor, Revision, Selectors, MonitorDb, has_monitor_id, satisfies_checks,
  is_slug, continues_slug, is_query, is_confidence, rounded_confidence, stored_revision,
  insert_revision, put_monitor,
}
use global_news_intelligence.Monitors.CriteriaTables.{
  HierarchyMatch, Criteria, references_exist, all_active, criteria_for_profile, add_selectors,
  keys_repeat, has_repeats, add_rows,
}
use global_news_intelligence.Monitors.Evaluation.{Plan, Clock}
use global_news_intelligence.Monitors.Revisions.{
  RevisionInput, MonitorDetail, add_monitor_revision, revise, create_revision, new_revision,
  as_conflict, get_monitor_detail,
}
use global_news_intelligence.Monitors.{expire_due_monitors, must_expire}
use global_news_intelligence.Monitors.Transactions.{
  Transaction, activates, pauses, archives, matches, run, step,
}
use global_news_intelligence.Monitors.Valid.{IsValid}
use global_news_intelligence.Monitors.Invariant.{run-IsValid}
use global_news_intelligence.Monitors.Lifecycle.{Follows, run-Follows}
use global_news_intelligence.Monitors.Roundtrip.{AreStored, normalized, add_monitor_revision-detail}
use global_news_intelligence.Monitors.Alerting.{AreAlerted, run-AreAlerted}
use global_news_intelligence.Monitors.Expiry.{HasExpired, expire_due_monitors-count}
use global_news_intelligence.Monitors.Steps.{HaveMoved, step-HaveMoved}

abbrev anything : {Key : Type 0} → HierarchyMatch Key
anything = record { ids = []; include_descendants = true }

abbrev strikes : Criteria
strikes = record {
  coverage_profile_id = none;
  geographies = record { ids = 7 ∷ []; include_descendants = true };
  topics = anything;
  entity_ids = [];
  entity_roles = [];
  document_types = anything;
  content_format_slugs = [];
  source_ids = [];
  source_types = anything;
  language_tags = [];
  minimum_confidence = none;
  effective_from = none;
  text_query = some "strike";
}

abbrev no_selectors : Selectors
no_selectors = record {
  geographies = [];
  topics = [];
  entities = [];
  entity_roles = [];
  document_types = [];
  content_formats = [];
  sources = [];
  source_types = [];
  languages = [];
}

abbrev first_revision : Revision
first_revision = record {
  id = 1;
  monitor_id = 1;
  revision_number = 1;
  minimum_confidence = none;
  effective_from = none;
  text_query = some "strike";
  match_all_in_profile = false;
  change_reason = none;
  sealed_at = some 10;
}

abbrev ports : Monitor
ports = record {
  id = 1;
  slug = "ports";
  name = "Ports";
  description = none;
  coverage_profile_id = 1;
  status = MonitorStatus.draft;
  current_revision_number = 1;
  match_existing_on_activation = true;
  expires_at = some 100;
  activated_at = none;
  paused_at = none;
  expired_at = none;
  archived_at = none;
}

abbrev no_alerts : AlertDb
no_alerts = record {
  monitors = [];
  matches = [];
  documents =
      record {
        id = 2;
        title_original = "Strike";
        summary_original = none;
        content_original = none;
        canonical_url = none;
      }
      ∷ [];
  destinations = [];
  routes = [];
  alerts = [];
  deliveries = [];
  attempts = [];
  next_alert_id = 1;
  next_delivery_id = 1;
  next_attempt_id = 1;
  db_now = 60;
}

abbrev newsroom : MonitorDb
newsroom = record {
  profiles = record { id = 1; is_default = true; is_active = true } ∷ [];
  resources = record {
    geographies = record { key = 7; is_active = true } ∷ [];
    topics = [];
    entities = [];
    document_types = [];
    content_formats = [];
    source_types = [];
    languages = [];
    sources = [];
  };
  monitors = ports ∷ [];
  revisions = first_revision ∷ [];
  selectors = no_selectors;
  runs = [];
  matches = [];
  alerting = no_alerts;
  next_monitor_id = 2;
  next_revision_id = 2;
  next_run_id = 1;
  next_match_id = 1;
}

-- A plan that selects every document
abbrev every : Plan
every c s = ok (λ d. true)

abbrev clock : Clock
clock = record { matched_at = 50; completed_at = 51; db_now = 50 }

abbrev transactions : List Transaction
transactions =
    activates clock 50 1
    ∷ matches (λ m. clock) 52 2 Trigger.ingestion
    ∷ pauses 60 1
    ∷ archives 70 1
    ∷ activates clock 80 1
    ∷ []

newsroom-IsValid : IsValid newsroom
unfolding count find? satisfies_checks is_slug continues_slug is_blank
newsroom-IsValid = record {
  fresh = (omega arith, tt);
  ids = λ n. ground arith;
  slugs = λ slug. ground arith;
  checks = (refl, tt);
  currents = ((first_revision, refl, refl), tt);
  pairs = λ m d. omega arith;
  observations = tt;
}

newsroom-AreStored : AreStored 2 no_selectors
newsroom-AreStored = record {
  geographies = tt;
  topics = tt;
  entities = tt;
  entity_roles = tt;
  document_types = tt;
  content_formats = tt;
  sources = tt;
  source_types = tt;
  languages = tt;
}

ports_found : find? (has_monitor_id 1) newsroom.monitors ≡ some ports
unfolding find?
ports_found = refl

run-IsValid_example : IsValid (run every newsroom transactions)
run-IsValid_example = run-IsValid every newsroom transactions newsroom-IsValid

run-Follows_example :
    (x : Monitor) × (find? (has_monitor_id 1) (run every newsroom transactions).monitors ≡ some x)
    × Follows ports x
run-Follows_example = run-Follows every newsroom transactions 1 ports newsroom-IsValid ports_found

run-AreAlerted_example : AreAlerted (run every newsroom transactions)
run-AreAlerted_example = run-AreAlerted every newsroom transactions newsroom-IsValid tt

abbrev second : RevisionInput
second = record { criteria = strikes; match_all_in_profile = false; change_reason = none }

abbrev second_revision : Revision
second_revision = record first_revision { id = 2; revision_number = 2; sealed_at = some 20 }

abbrev strikes_of_profile : Criteria
strikes_of_profile = record strikes { coverage_profile_id = some 1 }

abbrev revised : MonitorDb × MonitorDetail
revised = (
  record newsroom {
    monitors = record ports { current_revision_number = 2 } ∷ [];
    revisions = first_revision ∷ second_revision ∷ [];
    selectors = record no_selectors {
      geographies = record { revision_id = 2; resource = 7; include_descendants = true } ∷ [];
    };
    next_revision_id = 3;
  },
  record {
    monitor = record ports { current_revision_number = 2 };
    revision = second_revision;
    criteria = strikes_of_profile;
    match_count = 0;
  },
)

revised_is : add_monitor_revision 20 1 second newsroom ≡ ok revised
unfolding add_monitor_revision revise create_revision new_revision as_conflict references_exist
    all_active criteria_for_profile insert_revision is_query is_confidence rounded_confidence
    add_selectors keys_repeat has_repeats add_rows put_monitor satisfies_checks is_slug
    continues_slug is_blank find? any all update count
revised_is = refl

add_monitor_revision-detail_example :
    (get_monitor_detail 1 revised.0
      ≡ ok (record revised.1 {
        revision = stored_revision second_revision;
        criteria = normalized strikes_of_profile;
      }))
    × (strikes_of_profile ≡ record strikes { coverage_profile_id = some 1 })
add_monitor_revision-detail_example =
    add_monitor_revision-detail 20 1 second newsroom revised newsroom-AreStored revised_is

-- The monitor is active until its time comes.
abbrev active_newsroom : MonitorDb
active_newsroom = record newsroom {
  monitors = record ports { status = MonitorStatus.active; activated_at = some 50 } ∷ [];
}

active-IsValid : IsValid active_newsroom
unfolding count find? satisfies_checks is_slug continues_slug is_blank
active-IsValid = record {
  fresh = (omega arith, tt);
  ids = λ n. ground arith;
  slugs = λ slug. ground arith;
  checks = (refl, tt);
  currents = ((first_revision, refl, refl), tt);
  pairs = λ m d. omega arith;
  observations = tt;
}

abbrev none_locked : ℕ → Bool
none_locked _ = false

expire_due_monitors-count_example :
    (t : MonitorDb) × (ids : List ℕ) × (expire_due_monitors none_locked 100 500 active_newsroom
      ≡ ok (t, ids))
    × (length ids ≡ min 500 (count (must_expire none_locked 100) active_newsroom.monitors))
    × (count (must_expire none_locked 100) t.monitors + length ids
        ≡ count (must_expire none_locked 100) active_newsroom.monitors)
    × All (HasExpired none_locked 100 active_newsroom t) ids
    × ((i : ℕ)
        → any (λ j. j == i) ids ≡ false
        → find? (has_monitor_id i) t.monitors ≡ find? (has_monitor_id i) active_newsroom.monitors)
expire_due_monitors-count_example =
    expire_due_monitors-count none_locked 100 500 active_newsroom active-IsValid

step-HaveMoved_example :
    HaveMoved active_newsroom (step every active_newsroom (Transaction.pauses 60 1))
step-HaveMoved_example =
    step-HaveMoved every active_newsroom (Transaction.pauses 60 1) active-IsValid

one_is_due : count (must_expire none_locked 100) active_newsroom.monitors ≡ 1
unfolding count
one_is_due = refl
