-- ===== src/RateLimit.antt =====
-- app/services/acquisition_rate_limit_service.py. Every call runs in its caller's transaction;
-- `reserve` is ordered after the other calls for its endpoint by the advisory lock, and the rows
-- that a call changes are locked. Tables are in the order of their ids.
pub mod Tables
pub mod Windows
pub mod Targets
pub mod Balance
pub mod Preserved
pub mod Reserving
pub mod History
pub mod Admission
mod Provision
mod Rows
mod Release
unfoldable pub use Provision.*
unfoldable pub use Rows.*
unfoldable pub use Release.*
use global_news_intelligence.Prelude.{
  ℕ, ◌+◌, ◌-◌, max, String, str_eq, Bool, true, false, not, ◌&&◌, ◌||◌, Option, none, some, List,
  [], ◌∷◌, ◌++◌, map, find?, update, filter, any, all, Result, ok, err, ◌>>=◌, ◌>>◌, or_raise,
  raise_if, rate_limit_error, value_error, integrity_error, Time, ℤ, shift, is_positive, ◌==◌, ltb,
  leb, if◌then◌else◌,
}
use global_news_intelligence.Lease.{is_blank}
use Tables.{
  Scope, same_scope, Policy, Binding, Bucket, ReservationStatus, Reservation, Membership,
  Observation, ObservationType, RateDb, is_active, is_null, holds_open,
}
use Windows.{refresh_windows, next_eligible, count_request, maximum}
use Targets.{SplitUrl, Registry, Run, targets}

pub data DecisionState : Type 0 where
  replayed delayed reserved : DecisionState

pub record RateDecision : Type 0 where
  pub permitted : Bool
  pub state : DecisionState
  pub reservation : Option Reservation
  pub controlling_scope : Option Scope
  pub next_eligible_at : Option Time

-- One bucket of the loop that counts the request and records the membership.
pub charge_row : Time → ℕ → Row → RateDb → RateDb
charge_row now id r s = record s {
  buckets = update (has_id r.bucket.id) (count_request now) s.buckets;
  memberships =
      s.memberships
      ++ record { reservation_id = id; bucket_id = r.bucket.id; released_at = none } ∷ [];
}

abbrev pub is_member : ℕ → ℕ → Membership → Bool
is_member id bucket m = m.reservation_id == id && m.bucket_id == bucket

pub charge : Time → ℕ → List Row → RateDb → Result RateDb
unfolding charge_row
charge now id [] s = ok s
charge now id (r ∷ rows) s =
    let rest = charge now id rows (charge_row now id r s) in
    if any (is_member id r.bucket.id) s.memberships then err integrity_error else rest

pub record ReserveRequest : Type 0 where
  pub ingestion_run_id : ℕ
  pub source_endpoint_id : ℕ
  pub request_identity : String
  pub secret_reference_ids : List ℕ
  pub reservation_ttl : ℤ
  pub now : Time
  pub db_now : Time

pub new_reservation : ReserveRequest → ℕ → Reservation
new_reservation q id = record {
  id = id;
  ingestion_run_id = q.ingestion_run_id;
  request_identity = q.request_identity;
  status = ReservationStatus.active;
  reserved_at = q.now;
  expires_at = shift q.now q.reservation_ttl;
  finalized_at = none;
  next_eligible_at = none;
}

pub with_reservation : ReserveRequest → RateDb → RateDb
unfolding new_reservation
with_reservation q s = record s {
  reservations = s.reservations ++ new_reservation q s.next_reservation_id ∷ [];
  next_reservation_id = s.next_reservation_id + 1;
}

-- The last part: no row has to wait.
pub grant : Registry → ReserveRequest → List Row → RateDb → Result (RateDb × RateDecision)
unfolding charge with_reservation
grant g q rows s = do
  run ← or_raise (find? (λ (r : Run). r.id == q.ingestion_run_id) g.runs) rate_limit_error
  raise_if (not (run.source_endpoint_id == q.source_endpoint_id)) rate_limit_error
  raise_if (is_blank q.request_identity) integrity_error
  let reservation = new_reservation q s.next_reservation_id
  s' ← charge q.now s.next_reservation_id rows (with_reservation q s)
  ok (
    s',
    record {
      permitted = true;
      state = reserved;
      reservation = some reservation;
      controlling_scope = none;
      next_eligible_at = none;
    },
  )

-- `if controlling is not None: ...` and what follows
pub decide :
    Registry
    → ReserveRequest
    → List Row
    → Option (Row × Time)
    → RateDb
    → Result (RateDb × RateDecision)
unfolding grant
decide g q rows none s = grant g q rows s
decide g q rows (some (r, t)) s = ok (
  record s {
    buckets = update (has_id r.bucket.id) (λ b. record b { next_eligible_at = some t }) s.buckets;
  },
  record {
    permitted = false;
    state = delayed;
    reservation = none;
    controlling_scope = some r.binding.scope;
    next_eligible_at = some t;
  },
)

-- The loop over the rows, which are read again after the expiry: it changes no key.
pub settle : Registry → ReserveRequest → List Scope → RateDb → Result (RateDb × RateDecision)
unfolding decide
settle g q scopes s =
    let rows = rows_of scopes s in
    decide g q rows (controlling_from q.now none rows)
      (record s { buckets = refresh_rows q.now rows s.buckets })

-- From the join to the end.
pub authorize : Registry → ReserveRequest → List Scope → RateDb → Result (RateDb × RateDecision)
unfolding settle
authorize g q scopes s = do
  raise_if (not (is_complete scopes (rows_of scopes s))) rate_limit_error
  settle g q scopes (expire_abandoned q.now (rows_of scopes s) s)

is_replay : ReserveRequest → Reservation → Bool
is_replay q r =
    r.ingestion_run_id == q.ingestion_run_id && str_eq r.request_identity q.request_identity

reserve_new :
    (String → SplitUrl) → Registry → ReserveRequest → RateDb → Result (RateDb × RateDecision)
unfolding authorize
reserve_new urlsplit g q s = do
  scopes ← targets urlsplit g q.source_endpoint_id q.secret_reference_ids
  s' ← ensure_default_buckets q.db_now scopes s
  authorize g q scopes s'

answer :
    (String → SplitUrl)
    → Registry
    → ReserveRequest
    → RateDb
    → Option Reservation
    → Result (RateDb × RateDecision)
unfolding reserve_new
answer urlsplit g q s none = reserve_new urlsplit g q s
answer urlsplit g q s (some r) = ok (
  s,
  record {
    permitted = is_active r.status;
    state = replayed;
    reservation = some r;
    controlling_scope = none;
    next_eligible_at = r.next_eligible_at;
  },
)

pub reserve :
    (String → SplitUrl) → Registry → ReserveRequest → RateDb → Result (RateDb × RateDecision)
unfolding answer is_replay
reserve urlsplit g q s = do
  raise_if (not (is_positive q.reservation_ttl)) value_error
  answer urlsplit g q s (find? (is_replay q) s.reservations)
