-- ===== src/Lease/Examples.antt =====
-- Two workers after one endpoint.
use global_news_intelligence.Prelude.{
  ℕ, ◌≡◌, ◌≢◌, refl, subst, false, none, some, [], ◌∷◌, any, find?, update, count, ok, err, after,
  lease_error, integrity_error, trigger_error, true, pos, arith,
}
use global_news_intelligence.Lease.{
  Lease, LeaseDb, LeaseStatus, EndpointConfiguration, ConfigurationStatus, AcquireRequest, replayed,
  busy, taken_over, is_acquired, holds_active, new_lease, is_blank, satisfies_checks, insert_lease,
  passes_trigger, log_event, expire, expired_by, acquire, heartbeat, finalize, parse_outcome,
}
use global_news_intelligence.Lease.Operations.{Operation, run}
use global_news_intelligence.Lease.Invariant.{IsConsistent, run-IsConsistent}
use global_news_intelligence.Lease.Grants.{granted_exclusive, held_refuses, acquire_again}
use global_news_intelligence.Lease.Constraints.{acquire-ne-integrity}
use global_news_intelligence.Lease.Takeover.{takeover_fences, finalize_fences}

abbrev rss : EndpointConfiguration
rss = record {
  id = 1;
  source_endpoint_id = 7;
  adapter_id = 3;
  configuration_version = "v1";
  status = ConfigurationStatus.active;
}

abbrev empty_db : LeaseDb
empty_db = record { runs = []; configurations = rss ∷ []; leases = []; events = []; next_id = 1 }

abbrev first : AcquireRequest
first = record {
  source_endpoint_id = 7;
  execution_identity = "scheduled:a";
  owner_identifier = "celery:a";
  ttl = pos 300;
  ingestion_run_id = none;
  now = 1000;
  token = 11;
}

abbrev second : ℕ → AcquireRequest
second now = record {
  source_endpoint_id = 7;
  execution_identity = "scheduled:b";
  owner_identifier = "celery:b";
  ttl = pos 300;
  ingestion_run_id = none;
  now = now;
  token = 12;
}

abbrev first_lease : Lease
first_lease = record {
  id = 1;
  source_endpoint_id = 7;
  ingestion_run_id = none;
  endpoint_configuration_id = 1;
  execution_identity = "scheduled:a";
  configuration_version = "v1";
  owner_identifier = "celery:a";
  lease_token = 11;
  status = LeaseStatus.active;
  acquired_at = 1000;
  heartbeat_at = 1000;
  expires_at = 1300;
  finalized_at = none;
  takeover_count = 0;
}

abbrev held : LeaseDb
held = record {
  runs = [];
  configurations = rss ∷ [];
  leases = first_lease ∷ [];
  events = [];
  next_id = 2;
}

first_acquired : (after empty_db (acquire first empty_db)).leases ≡ held.leases
unfolding acquire insert_lease satisfies_checks log_event find? any new_lease passes_trigger
first_acquired = refl

empty-IsConsistent : IsConsistent empty_db.leases
unfolding count
empty-IsConsistent = record {
  one_active = λ e. omega arith;
  one_identity = λ e i. omega arith;
  one_token = λ t. omega arith;
}

held-IsConsistent : IsConsistent held.leases
unfolding count
held-IsConsistent = record {
  one_active = λ e. ground arith;
  one_identity = λ e i. ground arith;
  one_token = λ t. ground arith;
}

run-IsConsistent_example : IsConsistent (run held (Operation.acquires (second 2000) ∷ [])).leases
run-IsConsistent_example =
    run-IsConsistent held (Operation.acquires (second 2000) ∷ []) held-IsConsistent

abbrev second_lease : Lease
second_lease = record {
  id = 2;
  source_endpoint_id = 7;
  ingestion_run_id = none;
  endpoint_configuration_id = 1;
  execution_identity = "scheduled:b";
  configuration_version = "v1";
  owner_identifier = "celery:b";
  lease_token = 12;
  status = LeaseStatus.active;
  acquired_at = 2000;
  heartbeat_at = 2000;
  expires_at = 2300;
  finalized_at = none;
  takeover_count = 1;
}

abbrev taken : LeaseDb
taken = after held (acquire (second 2000) held)

granted_exclusive_example :
    (find? (holds_active 7) taken.leases ≡ some second_lease)
    × (count (holds_active 7) taken.leases ≡ 1)
    × (second_lease.owner_identifier ≡ "celery:b")
    × (second_lease.lease_token ≡ 12)
    × (second_lease.expires_at ≡ 2300)
unfolding acquire insert_lease satisfies_checks log_event find? any new_lease update is_acquired
    expire expired_by passes_trigger is_blank
granted_exclusive_example =
    granted_exclusive (second 2000) held taken (record { state = taken_over; lease = second_lease })
      held-IsConsistent refl refl

held_refuses_example : (is_acquired busy ≡ false) × (held.leases ≡ held.leases)
unfolding acquire insert_lease satisfies_checks log_event find? any new_lease update
held_refuses_example =
    held_refuses (second 1200) held held (record { state = busy; lease = first_lease }) first_lease
      refl (omega arith) refl

acquire-ne-integrity_example :
    (acquire (second 2000) held ≢ err integrity_error)
    × (acquire (second 2000) held ≢ err trigger_error)
unfolding is_blank any find? passes_trigger
acquire-ne-integrity_example = acquire-ne-integrity (second 2000) held held-IsConsistent (record {
  positive = refl;
  identity = refl;
  owner = refl;
  fresh = refl;
  run = refl;
  current = λ l h.
      let same : first_lease ≡ l = ground arith in
      subst (λ x. passes_trigger x held ≡ true) same refl;
  versions = λ c h.
      let same : rss ≡ c = ground arith in
      subst (λ x. is_blank x.configuration_version ≡ false) same refl;
})

acquire_again_example :
    (t : LeaseDb) × (acquire (second 9000) taken
      ≡ ok (t, record { state = replayed; lease = second_lease }))
    × (t.leases ≡ taken.leases)
unfolding acquire insert_lease satisfies_checks log_event find? any new_lease update is_acquired
    expire expired_by passes_trigger is_blank
acquire_again_example =
    acquire_again (second 2000) (second 9000) held taken
      (record { state = taken_over; lease = second_lease }) refl refl refl refl refl

takeover_fences_example :
    (heartbeat 11 "celery:a" (pos 300) 2001 (run taken (Operation.acquires (second 2005) ∷ []))
      ≡ err lease_error)
    × (finalize 11 "celery:a" "released" 2001 (run taken (Operation.acquires (second 2005) ∷ []))
        ≡ err lease_error)
unfolding acquire insert_lease satisfies_checks log_event find? any new_lease update is_acquired
    expire expired_by passes_trigger is_blank parse_outcome
takeover_fences_example =
    takeover_fences (second 2000) held taken (record { state = taken_over; lease = second_lease })
      first_lease (Operation.acquires (second 2005) ∷ []) "celery:a" "released" (pos 300) 2001
      held-IsConsistent refl refl refl refl (λ e. cc)

abbrev released : LeaseDb
released = after held (finalize 11 "celery:a" "released" 1100 held)

finalize_fences_example :
    (heartbeat 11 "celery:a" (pos 300) 1150 (run released []) ≡ err lease_error)
    × (finalize 11 "celery:a" "failed" 1150 (run released []) ≡ err lease_error)
unfolding finalize find? log_event update parse_outcome passes_trigger any is_blank
finalize_fences_example =
    finalize_fences 11 "celery:a" "released" 1100 held released
      (record first_lease { status = LeaseStatus.released; finalized_at = some 1100 }) [] "celery:a"
      "failed" (pos 300) 1150 held-IsConsistent refl refl (λ e. cc)
