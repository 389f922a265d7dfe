-- ===== src/Lease.antt =====
-- app/services/acquisition_lease_service.py over the lease tables of
-- app/models/acquisition_control.py. Every call runs in its caller's transaction, which the
-- advisory lock on the endpoint orders after the others of that endpoint, so a call is a function
-- from the tables to the tables. An `INSERT` or `UPDATE` against a constraint raises
-- `IntegrityError`, and against the trigger of the leases another error of the database.
mod Tables
pub mod Operations
mod Examples
pub mod Takeover
pub mod Grants
pub mod Constraints
pub mod Invariant
pub mod Fencing
pub use Tables.{
  LeaseStatus, LeaseEventType, EventDetails, Lease, LeaseEvent, ConfigurationStatus,
  EndpointConfiguration, LeaseDb, is_active, is_active_configuration, holds_identity, holds_active,
  has_token, has_id, IngestionRun,
}
unfoldable pub use Tables.{is_blank, satisfies_checks, passes_trigger, insert_lease, log_event}
use global_news_intelligence.Prelude.{
  ℕ, ◌+◌, String, ◌==◌, str_eq, Bool, true, false, not, ◌&&◌, ◌||◌, Option, none, some, find?,
  update, Result, ok, err, ◌>>=◌, ◌>>◌, or_raise, raise_if, value_error, lease_error,
  integrity_error, trigger_error, Time, ℤ, shift, is_positive, ltb, leb, if◌then◌else◌,
}

-- The keyword arguments of `acquire`. `token` is the value that the server's default for
-- `lease_token` draws.
pub record AcquireRequest : Type 0 where
  pub source_endpoint_id : ℕ
  pub execution_identity : String
  pub owner_identifier : String
  pub ttl : ℤ
  pub ingestion_run_id : Option ℕ
  pub now : Time
  pub token : ℕ

pub data DecisionState : Type 0 where
  replayed busy acquired taken_over : DecisionState

pub record LeaseDecision : Type 0 where
  pub state : DecisionState
  pub lease : Lease

-- `LeaseDecision.acquired`
pub is_acquired : DecisionState → Bool
is_acquired acquired = true
is_acquired taken_over = true
is_acquired _ = false

abbrev pub event_of : DecisionState → LeaseEventType
event_of replayed = LeaseEventType.replayed
event_of busy = LeaseEventType.replayed
event_of acquired = LeaseEventType.acquired
event_of taken_over = LeaseEventType.taken_over

-- The row that `acquire` inserts.
pub new_lease : AcquireRequest → EndpointConfiguration → ℕ → LeaseDb → Lease
new_lease r c takeovers s = record {
  id = s.next_id;
  source_endpoint_id = r.source_endpoint_id;
  ingestion_run_id = r.ingestion_run_id;
  endpoint_configuration_id = c.id;
  execution_identity = r.execution_identity;
  configuration_version = c.configuration_version;
  owner_identifier = r.owner_identifier;
  lease_token = r.token;
  status = LeaseStatus.active;
  acquired_at = r.now;
  heartbeat_at = r.now;
  expires_at = shift r.now r.ttl;
  finalized_at = none;
  takeover_count = takeovers;
}

create :
    AcquireRequest
    → EndpointConfiguration
    → DecisionState
    → ℕ
    → LeaseDb
    → Result (LeaseDb × LeaseDecision)
unfolding new_lease
create r c state takeovers s = do
  let lease = new_lease r c takeovers s
  s' ← insert_lease lease s
  ok (
    log_event lease.id (event_of state) r.owner_identifier (EventDetails.takeovers takeovers) s',
    record { state = state; lease = lease },
  )

-- `lease.status = ...; lease.finalized_at = ...`
abbrev pub mark : LeaseStatus → Time → Lease → Lease
mark status now x = record x { status = status; finalized_at = some now }

-- The tables with the active lease marked expired
pub expired_by : AcquireRequest → Lease → LeaseDb → LeaseDb
expired_by r l s =
    log_event l.id LeaseEventType.expired r.owner_identifier
      (EventDetails.takeover_by r.owner_identifier)
      (record s { leases = update (has_id l.id) (mark LeaseStatus.expired r.now) s.leases })

-- The trigger reads the columns of the row that do not change, and no column under a check changes.
pub expire : AcquireRequest → Lease → LeaseDb → Result LeaseDb
unfolding expired_by
expire r l s = do
  raise_if (not (passes_trigger l s)) trigger_error
  raise_if (is_blank r.owner_identifier) integrity_error
  ok (expired_by r l s)

-- From `active is not None` to the end.
take_over :
    AcquireRequest
    → EndpointConfiguration
    → Option Lease
    → LeaseDb
    → Result (LeaseDb × LeaseDecision)
unfolding create expire
take_over r c none s = create r c acquired 0 s
take_over r c (some l) s =
    if ltb r.now l.expires_at
    then ok (s, record { state = busy; lease = l })
    else expire r l s >>= (λ s'. create r c taken_over (l.takeover_count + 1) s')

-- The part after the replay check.
acquire_new : AcquireRequest → LeaseDb → Result (LeaseDb × LeaseDecision)
unfolding take_over
acquire_new r s = do
  c ← or_raise (find? (is_active_configuration r.source_endpoint_id) s.configurations) lease_error
  take_over r c (find? (holds_active r.source_endpoint_id) s.leases) s

replay : AcquireRequest → Option Lease → LeaseDb → Result (LeaseDb × LeaseDecision)
unfolding acquire_new
replay r none s = acquire_new r s
replay r (some l) s = do
  raise_if (is_blank r.owner_identifier) integrity_error
  ok (
    log_event l.id LeaseEventType.replayed r.owner_identifier
        (EventDetails.existing_status l.status) s,
    record { state = replayed; lease = l },
  )

pub acquire : AcquireRequest → LeaseDb → Result (LeaseDb × LeaseDecision)
unfolding replay
acquire r s = replay r (find? (holds_identity r.source_endpoint_id r.execution_identity) s.leases) s

-- The condition that `heartbeat` requires.
pub has_authority : String → Time → Lease → Bool
has_authority owner now l =
    is_active l.status && str_eq l.owner_identifier owner && ltb now l.expires_at

pub heartbeat : ℕ → String → ℤ → Time → LeaseDb → Result (LeaseDb × Lease)
unfolding has_authority
heartbeat token owner ttl now s = do
  raise_if (not (is_positive ttl)) value_error
  l ← or_raise (find? (has_token token) s.leases) lease_error
  raise_if (not (has_authority owner now l)) lease_error
  raise_if (not (passes_trigger l s)) trigger_error
  let l' = record l { heartbeat_at = now; expires_at = shift now ttl }
  raise_if (not (satisfies_checks l')) integrity_error
  ok (
    log_event l.id LeaseEventType.heartbeat owner (EventDetails.expires_at l'.expires_at)
        (record s {
          leases =
              update (has_id l.id)
                (λ x. record x { heartbeat_at = now; expires_at = shift now ttl }) s.leases;
        }),
    l',
  )

-- `outcome not in {"released", "failed"}`
pub parse_outcome : String → Option LeaseStatus
parse_outcome outcome =
    if str_eq outcome "released"
    then some LeaseStatus.released
    else if str_eq outcome "failed"
    then some LeaseStatus.failed
    else none

abbrev outcome_event : LeaseStatus → LeaseEventType
outcome_event LeaseStatus.released = LeaseEventType.released
outcome_event _ = LeaseEventType.failed

pub finalize : ℕ → String → String → Time → LeaseDb → Result (LeaseDb × Lease)
finalize token owner outcome now s = do
  status ← or_raise (parse_outcome outcome) value_error
  l ← or_raise (find? (has_token token) s.leases) lease_error
  raise_if (not (is_active l.status && str_eq l.owner_identifier owner)) lease_error
  raise_if (not (passes_trigger l s)) trigger_error
  raise_if (is_blank owner) integrity_error
  ok (
    log_event l.id (outcome_event status) owner EventDetails.empty
        (record s { leases = update (has_id l.id) (mark status now) s.leases }),
    mark status now l,
  )
