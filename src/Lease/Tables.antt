-- ===== src/Lease/Tables.antt =====
-- The tables behind leases, from app/models/acquisition_control.py: the columns that the service
-- reads and writes, and the constraints and the trigger of `acquisition_leases`.
use Prim.Native.Char.{code}
use global_news_intelligence.Prelude.{
  ℕ, ◌+◌, String, ◌==◌, str_eq, Bool, true, false, not, ◌&&◌, Option, List, [], ◌∷◌, ◌++◌, any,
  Result, ok, ◌>>◌, raise_if, integrity_error, trigger_error, none, some, Time, ltb, leb,
}

pub data LeaseStatus : Type 0 where
  active released expired failed : LeaseStatus

pub data LeaseEventType : Type 0 where
  acquired heartbeat taken_over released expired failed replayed : LeaseEventType

-- The JSON objects that the service writes to `details`.
pub data EventDetails : Type 0 where
  existing_status : LeaseStatus → EventDetails
  takeover_by : String → EventDetails
  takeovers : ℕ → EventDetails
  expires_at : Time → EventDetails
  empty : EventDetails

pub record Lease : Type 0 where
  pub id : ℕ
  pub source_endpoint_id : ℕ
  pub ingestion_run_id : Option ℕ
  pub endpoint_configuration_id : ℕ
  pub execution_identity : String
  pub configuration_version : String
  pub owner_identifier : String
  pub lease_token : ℕ
  pub status : LeaseStatus
  pub acquired_at : Time
  pub heartbeat_at : Time
  pub expires_at : Time
  pub finalized_at : Option Time
  pub takeover_count : ℕ

pub record LeaseEvent : Type 0 where
  pub lease_id : ℕ
  pub event_type : LeaseEventType
  pub owner_identifier : String
  pub details : EventDetails

pub data ConfigurationStatus : Type 0 where
  candidate active retired blocked : ConfigurationStatus

pub record EndpointConfiguration : Type 0 where
  pub id : ℕ
  pub source_endpoint_id : ℕ
  pub adapter_id : ℕ
  pub configuration_version : String
  pub status : ConfigurationStatus

pub record IngestionRun : Type 0 where
  pub id : ℕ
  pub source_endpoint_id : ℕ

pub record LeaseDb : Type 0 where
  pub runs : List IngestionRun
  pub configurations : List EndpointConfiguration
  pub leases : List Lease
  pub events : List LeaseEvent
  pub next_id : ℕ

abbrev pub is_active : LeaseStatus → Bool
is_active LeaseStatus.active = true
is_active _ = false

abbrev pub is_active_configuration : ℕ → EndpointConfiguration → Bool
is_active_configuration endpoint c =
    c.source_endpoint_id == endpoint
    && (elim c.status [ ConfigurationStatus.active ↦ true | _ ↦ false ])

-- `btrim(value) = ''`: nothing but spaces
unfoldable pub is_blank : String → Bool
is_blank String.[] = true
is_blank (String.◌∷◌ c s) = code c == b' ' && is_blank s

-- The `WHERE` clauses of the service.
abbrev pub holds_identity : ℕ → String → Lease → Bool
holds_identity endpoint identity l =
    l.source_endpoint_id == endpoint && str_eq l.execution_identity identity

abbrev pub holds_active : ℕ → Lease → Bool
holds_active endpoint l = l.source_endpoint_id == endpoint && is_active l.status

abbrev pub has_token : ℕ → Lease → Bool
has_token token l = l.lease_token == token

abbrev pub has_id : ℕ → Lease → Bool
has_id id l = l.id == id

-- The checks `time_order` and `identifiers_nonempty`. The two others hold of every value of the
-- columns' types.
unfoldable pub satisfies_checks : Lease → Bool
unfolding is_blank
satisfies_checks l =
    ltb l.acquired_at l.expires_at
    && leb l.acquired_at l.heartbeat_at
    && not (is_blank l.execution_identity)
    && not (is_blank l.configuration_version)
    && not (is_blank l.owner_identifier)

-- The configuration that a lease names: its own, with its version, and active.
abbrev pub is_exact : Lease → EndpointConfiguration → Bool
is_exact l c =
    c.id == l.endpoint_configuration_id
    && str_eq c.configuration_version l.configuration_version
    && is_active_configuration l.source_endpoint_id c

-- The run that a lease names, of the same endpoint
abbrev pub has_run : Option ℕ → ℕ → List IngestionRun → Bool
has_run none endpoint runs = true
has_run (some id) endpoint runs =
    any (λ (x : IngestionRun). x.id == id && x.source_endpoint_id == endpoint) runs

-- `validate_acquisition_lease`, before each `INSERT` and `UPDATE`
unfoldable pub passes_trigger : Lease → LeaseDb → Bool
passes_trigger l s =
    any (is_exact l) s.configurations && has_run l.ingestion_run_id l.source_endpoint_id s.runs

-- An `INSERT` under the trigger, which implies the foreign keys, the checks, the unique constraint on the endpoint's execution, the unique
-- index on the endpoint's active lease, and the unique token.
unfoldable pub insert_lease : Lease → LeaseDb → Result LeaseDb
insert_lease l s = do
  raise_if (not (passes_trigger l s)) trigger_error
  raise_if (not (satisfies_checks l)) integrity_error
  raise_if (any (holds_identity l.source_endpoint_id l.execution_identity) s.leases) integrity_error
  raise_if (is_active l.status && any (holds_active l.source_endpoint_id) s.leases) integrity_error
  raise_if (any (has_token l.lease_token) s.leases) integrity_error
  ok (record s { leases = s.leases ++ l ∷ []; next_id = s.next_id + 1 })

unfoldable pub log_event : ℕ → LeaseEventType → String → EventDetails → LeaseDb → LeaseDb
log_event id type owner details s = record s {
  events =
      s.events
      ++ record { lease_id = id; event_type = type; owner_identifier = owner; details = details }
        ∷ [];
}
